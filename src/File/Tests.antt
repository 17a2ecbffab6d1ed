-- ===== src/File/Tests.antt =====
-- The file table at a table of two slots.
use sofinal_project.Prelude.{◌≡◌, refl, true, false, some, List, [], ◌∷◌, find_first}
use sofinal_project.File.{fd_none, fd_pipe, File, filealloc}

abbrev free_file : File
free_file = record {
  type = fd_none;
  ref = 0;
  readable = false;
  writable = false;
  pipe = 0;
  ip = 0;
  off = 0;
}

abbrev pipe_end : File
pipe_end = record {
  type = fd_pipe;
  ref = 1;
  readable = true;
  writable = false;
  pipe = 7;
  ip = 0;
  off = 0;
}

abbrev two_files : List File
two_files = pipe_end ∷ free_file ∷ []

second_slot : (filealloc two_files).0 ≡ some 1
unfolding filealloc find_first
second_slot = refl
