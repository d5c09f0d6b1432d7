-- ===== src/Endpoint/Configfs/Tree.antt =====
-- What src/endpoint/configfs.c uses of the kernel: a tree of files, and the directory that a process
-- is in. A path is the list of its parts; a name that is put into one is taken to be one part, that is
-- to hold no slash and to be neither `.` nor `..`.
use nvme_dem.Prelude.{
  ◌||◌, any, leb, ℕ, ◌-◌, Bool, true, false, List, [], ◌∷◌, ◌++◌, Option, take, length,
  if◌then◌else◌, CStr, ◌==◌,
}
use nvme_dem.Dem.Config.Oob.{path}

-- What mkdir and symlink return: 0, EEXIST or another error.
pub data Made : Type 0 where
  new existing unmade : Made

-- What remove returns: 0, ENOENT or another error.
pub data Removed : Type 0 where
  gone missing stuck : Removed

-- The kernel's calls, on paths from the root. `write` opens a file, prints a text and closes it, and
-- does nothing where the file cannot be opened; `read` is the first line of a file with its newline,
-- empty where it cannot be read; `list` is the entries of a directory at the time that it is opened,
-- less `.` and `..`.
pub record Kernel (T : Type 0) : Type 0 where
  pub is_dir : List CStr → T → Bool
  pub mkdir : List CStr → T → Made × T
  pub rmdir : List CStr → T → T
  pub remove : List CStr → T → Removed × T
  pub symlink : List CStr → List CStr → T → Made × T
  pub write : List CStr → CStr → T → T
  pub read : List CStr → T → CStr
  pub list : List CStr → T → Option (List CStr)

-- A path from the root, one from the current directory, and `..` so many times.
pub data FilePath : Type 0 where
  root at : List CStr → FilePath
  up : ℕ → FilePath

-- A process: the directory that it is in, the tree, and whether it has printed a path past the end of
-- its buffer, which is undefined behaviour. What the kernel lists is short enough for the buffers.
pub record Process (T : Type 0) : Type 0 where
  pub dir : List CStr
  pub tree : T
  pub overran : Bool

-- MAXPATHLEN
abbrev pub max_path : ℕ
max_path = 512

-- A path from the root, as a text.
abbrev pub from_root : List CStr → CStr
from_root p = b'/' ∷ path p

abbrev pub resolve : List CStr → FilePath → List CStr
resolve d (root p) = p
resolve d (at p) = d ++ p
resolve d (up n) = take (length d - n) d

-- `read_str`: at most 62 bytes of the line, without the newline.
abbrev pub without_newline : CStr → CStr
without_newline [] = []
without_newline (c ∷ s) = let rest = without_newline s in if c == 10 then [] else c ∷ rest

module _ {T : Type 0} (kernel : Kernel T) where
  abbrev pub enter : Bool → List CStr → Process T → Bool × Process T
  enter false p s = (false, s)
  enter true p s = (true, record s { dir = p })

  abbrev pub chdir : FilePath → Process T → Bool × Process T
  chdir p s = let q = resolve s.dir p in enter (kernel.is_dir q s.tree) q s

  -- `chdir` whose result is not looked at.
  abbrev pub go : FilePath → Process T → Process T
  go p s = (chdir p s).1

  abbrev pub rmdir : List CStr → Process T → Process T
  rmdir p s = record s { tree = kernel.rmdir (s.dir ++ p) s.tree }

  -- `write_str` and `write_chr`
  abbrev pub write_str : CStr → CStr → Process T → Process T
  write_str name text s = record s { tree = kernel.write (s.dir ++ name ∷ []) text s.tree }

  abbrev pub read_str : CStr → Process T → CStr
  read_str name s = without_newline (take 62 (kernel.read (s.dir ++ name ∷ []) s.tree))

  abbrev pub mkdir : List CStr → Process T → Made × Process T
  mkdir p s = let (m, t) = kernel.mkdir (s.dir ++ p) s.tree in (m, record s { tree = t })

  abbrev pub remove : List CStr → Process T → Removed × Process T
  remove p s = let (r, t) = kernel.remove (s.dir ++ p) s.tree in (r, record s { tree = t })

  -- The link's target is a path from the root.
  abbrev pub symlink : List CStr → List CStr → Process T → Made × Process T
  symlink p link s =
      let (m, t) = kernel.symlink p (s.dir ++ link) s.tree in (m, record s { tree = t })

  -- A part of an operation that prints these paths into buffers of MAXPATHLEN bytes.
  abbrev pub printing : List CStr → (Process T → Bool × Process T) → Process T → Bool × Process T
  printing texts body s =
      let (r, s') = body s in
      (r, record s' { overran = s'.overran || any (λ u. leb max_path (length u)) texts })
