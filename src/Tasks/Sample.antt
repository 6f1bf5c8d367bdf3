-- ===== src/Tasks/Sample.antt =====
-- Address spaces that cost nothing, for the runs of the model.
use the_rack.Base.{ok}
use the_rack.Tasks.{Spaces}

abbrev pub free_spaces : Spaces
free_spaces = record {
  destroy = λ root m. ok m;
  build_user_space = λ start stop arg m. ok (m, 0x7000);
}
