-- ===== src/Tests/Directories.antt =====
-- The theorems on the directory index at `a/b`, with the data of chunk 0.
use retoc.Prelude.{List, [], ◌∷◌, suc, zero, some, none, codes, refl, subst, arith, ◌≡◌}
use mathlib.Core.Option.{some_inj}
use retoc.Outcome.{ok}
use retoc.Directory.Forward.{IsDirectory, IsForward, AreFiles, AreDirectories, IsFile, iter_root-ok}
use retoc.Directory.{FIoDirectoryIndexResource, FIoFileIndexEntry, FIoDirectoryIndexEntry}
use retoc.Directory.Walk.{Visit, iter_root}
use retoc.Directory.Add.{add_file}
use retoc.Directory.Forward.Insert.{add_file-IsForward}

abbrev root : FIoDirectoryIndexEntry
root = record {
  name = none;
  first_child_entry = some 1;
  next_sibling_entry = none;
  first_file_entry = none;
}

abbrev folder : FIoDirectoryIndexEntry
folder = record {
  name = some 0;
  first_child_entry = none;
  next_sibling_entry = none;
  first_file_entry = some 0;
}

abbrev file : FIoFileIndexEntry
file = record { name = 1; next_file_entry = none; user_data = 0 }

abbrev index : FIoDirectoryIndexResource
index = record {
  mount_point = codes "../";
  directory_entries = root ∷ folder ∷ [];
  file_entries = file ∷ [];
  string_table = codes "a" ∷ codes "b" ∷ [];
}

at_root : IsDirectory 0 2 1 2 root
at_root = record {
  name = refl;
  first_child = (omega arith, omega arith);
  next_sibling = tt;
  first_file = tt;
}

at_folder : IsDirectory 1 2 1 2 folder
at_folder = record {
  name = omega arith;
  first_child = tt;
  next_sibling = tt;
  first_file = omega arith;
}

directories : AreDirectories 2 1 2 index.directory_entries
directories zero d h = subst (IsDirectory 0 2 1 2) (some_inj.0 h) at_root
directories (suc zero) d h = subst (IsDirectory 1 2 1 2) (some_inj.0 h) at_folder
directories (suc (suc i)) d h = cc

files : AreFiles 1 2 index.file_entries
files zero f h = subst (IsFile 0 1 2) (some_inj.0 h) (record { name = omega arith; next_file = tt })
files (suc i) f h = cc

index-IsForward : IsForward index
index-IsForward = record { directories = directories; files = files }

iter_root-ok_example : (visits : List Visit) × (iter_root index ≡ ok visits)
iter_root-ok_example = iter_root-ok index index-IsForward

add_file-IsForward_example :
    (new : FIoDirectoryIndexResource) × (add_file index (codes "a" ∷ codes "c" ∷ []) 7 ≡ ok new)
    × IsForward new
add_file-IsForward_example =
    add_file-IsForward index (codes "a") (codes "c" ∷ []) 7 index-IsForward (omega arith)
      (omega arith) (omega arith)
