-- ===== src/Fs.antt =====
-- The calls of the file system that src/panda/unievent/Fs.cc builds from others. The calls of libuv
-- that it wraps are an interface; a path is the list of its characters.
pub mod Tree
pub mod Files
pub mod Made
pub mod Paths
pub mod Returns
mod Tests
use Prim.Native.Nat.{bit_and}
use uni_event.Base.{
  ℕ, zero, suc, Bool, true, false, not, ◌||◌, Option, none, some, List, [], ◌∷◌, ◌++◌, ◌==◌,
  if◌then◌else◌, length,
}

-- `ex<T>`, with the code of an error.
pub data Result {ℓ} (A : Type ℓ) : Type ℓ where
  ok : A → Result A
  err : ℕ → Result A

pub data FileType : Type 0 where
  unknown block char_device dir fifo link regular socket : FileType

-- `S_IFMT` and the values under it, from sys/stat.h.
abbrev pub ftype_mask : ℕ
ftype_mask = 61440

pub ftype : ℕ → FileType
ftype mode =
    let m = bit_and mode ftype_mask in
    if m == 24576
    then block
    else if m == 8192
    then char_device
    else if m == 16384
    then dir
    else if m == 4096
    then fifo
    else if m == 40960
    then link
    else if m == 32768
    then regular
    else if m == 49152
    then socket
    else unknown

abbrev pub FilePath : Type 0
FilePath = List ℕ

pub record Entry : Type 0 where
  pub name : FilePath
  pub type : FileType

-- What the code asks of libuv; `stat` and `scandir` only read. A `stat` gives the mode.
pub record FileSystem : Type 1 where
  pub State : Type 0
  pub stat : FilePath → State → Result ℕ
  pub scandir : FilePath → State → Result (List Entry)
  pub mkdir : FilePath → ℕ → State → Result (Unit {0}) × State
  pub rmdir : FilePath → State → Result (Unit {0}) × State
  pub unlink : FilePath → State → Result (Unit {0}) × State
  pub open_file : FilePath → ℕ → ℕ → State → Result ℕ × State
  pub close : ℕ → State → Result (Unit {0}) × State
  pub truncate : ℕ → ℕ → State → Result (Unit {0}) × State
  pub utime : FilePath → ℕ → State → Result (Unit {0}) × State
  pub gettimeofday : State → Result ℕ

-- The calls that change something, as they are recorded.
pub data Call : Type 0 where
  made removed_dir unlinked opened touched : FilePath → Call
  closed truncated : ℕ → Call

abbrev pub file_exists : ℕ
file_exists = 17

abbrev pub not_a_directory : ℕ
not_a_directory = 20

-- The characters of a separator; `\` counts on every system.
pub is_slash : ℕ → Bool
is_slash c = c == b'/' || c == 92

-- The characters that `skip_slash` and `find_part` pass, and the rest.
pub skip_slash : FilePath → FilePath × FilePath
skip_slash [] = ([], [])
skip_slash (c ∷ cs) = let r = skip_slash cs in if is_slash c then (c ∷ r.0, r.1) else ([], c ∷ cs)

pub find_part : FilePath → FilePath × FilePath
find_part [] = ([], [])
find_part (c ∷ cs) = let r = find_part cs in if is_slash c then ([], c ∷ cs) else (c ∷ r.0, r.1)

module _ (fs : FileSystem) where
  pub record World : Type 0 where
    pub state : fs.State
    pub calls : List Call

  -- A call with its record.
  abbrev pub recorded {ℓ} : {A : Type ℓ} → Call → (fs.State → A × fs.State) → World → A × World
  recorded c f w = let r = f w.state in (r.0, record { state = r.1; calls = w.calls ++ c ∷ [] })

  abbrev pub type_is : (FileType → Bool) → Result ℕ → Bool
  type_is p (ok mode) = p (ftype mode)
  type_is p (err e) = false

  abbrev pub is_dir_type : FileType → Bool
  is_dir_type dir = true
  is_dir_type _ = false

  pub isdir : FilePath → World → Bool
  unfolding ftype
  isdir path w = type_is is_dir_type (fs.stat path w.state)

  pub exists : FilePath → World → Bool
  exists path w = type_is (λ t. true) (fs.stat path w.state)

  -- The body of the loop of `mkpath` behind `mkdir`.
  pub made_or_there : FilePath → Result (Unit {0}) × World → Result (Unit {0}) × World
  unfolding isdir
  made_or_there path (ok u, w) = (ok u, w)
  made_or_there path (err e, w) =
      if not (e == file_exists)
      then (err e, w)
      else if isdir path w
      then (ok tt, w)
      else (err not_a_directory, w)

  pub make_one : ℕ → FilePath → World → Result (Unit {0}) × World
  unfolding made_or_there
  make_one mode path w = made_or_there path (recorded (made path) (fs.mkdir path mode) w)

  -- The loop, with fuel: the characters before `pos` and those from it on. none is a lack of fuel.
  pub mkpath_loop : ℕ → ℕ → FilePath → FilePath → World → Option (Result (Unit {0}) × World)
  unfolding find_part skip_slash make_one
  mkpath_loop mode fuel before [] w = some (ok tt, w)
  mkpath_loop mode zero before (c ∷ cs) w = none
  mkpath_loop mode (suc fuel) before (c ∷ cs) w =
      let part = find_part (c ∷ cs) in
      let slashes = skip_slash part.1 in
      let r = make_one mode (before ++ part.0) w in
      elim r.0 [
        | ok u ↦ mkpath_loop mode fuel ((before ++ part.0) ++ slashes.0) slashes.1 r.1
        | err e ↦ some (err e, r.1)
      ]

  pub mkpath : ℕ → FilePath → World → Option (Result (Unit {0}) × World)
  unfolding mkpath_loop
  mkpath mode [] w = some (ok tt, w)
  mkpath mode (c ∷ cs) w =
      let slashes = skip_slash (c ∷ cs) in mkpath_loop mode (length (c ∷ cs)) slashes.0 slashes.1 w

  pub remove : FilePath → World → Result (Unit {0}) × World
  unfolding isdir
  remove path w =
      if isdir path w
      then recorded (removed_dir path) (fs.rmdir path) w
      else recorded (unlinked path) (fs.unlink path) w

  abbrev pub below : FilePath → FilePath → FilePath
  below path name = path ++ b'/' ∷ name

  -- An entry of `_rmtree`, whose call of itself is `again`.
  pub remove_entry :
      (FilePath → World → Option (Result (Unit {0}) × World))
      → FilePath
      → FileType
      → World
      → Option (Result (Unit {0}) × World)
  remove_entry again path dir w = again path w
  remove_entry again path _ w = some (recorded (unlinked path) (fs.unlink path) w)

  -- The loop over the entries, and what follows it.
  pub remove_entries :
      (FilePath → World → Option (Result (Unit {0}) × World))
      → FilePath
      → List Entry
      → World
      → Option (Result (Unit {0}) × World)
  unfolding remove_entry
  remove_entries again path [] w = some (recorded (removed_dir path) (fs.rmdir path) w)
  remove_entries again path (e ∷ es) w = elim (remove_entry again (below path e.name) e.type w) [
    | none ↦ none
    | some r ↦ elim r.0 [ ok u ↦ remove_entries again path es r.1 | err x ↦ some (err x, r.1) ]
  ]

  -- `_rmtree`, with fuel for the depth of the tree.
  pub rmtree : ℕ → FilePath → World → Option (Result (Unit {0}) × World)
  unfolding remove_entries
  rmtree zero path w = none
  rmtree (suc fuel) path w = elim (fs.scandir path w.state) [
    | ok es ↦ remove_entries (rmtree fuel) path es w
    | err e ↦ some (err e, w)
  ]

  pub remove_all : ℕ → FilePath → World → Option (Result (Unit {0}) × World)
  unfolding isdir rmtree
  remove_all fuel path w =
      if isdir path w
      then rmtree fuel path w
      else some (recorded (unlinked path) (fs.unlink path) w)

  abbrev pub close_it : ℕ → World → Result (Unit {0}) × World
  close_it fd w = recorded (closed fd) (fs.close fd) w

  -- `truncate` by a path, behind the truncation: `close(fd).nevermind()`, or the result of `close`.
  pub close_after : ℕ → Result (Unit {0}) × World → Result (Unit {0}) × World
  close_after fd (ok u, w) = close_it fd w
  close_after fd (err e, w) = (err e, (close_it fd w).1)

  pub truncate_opened : ℕ → Result ℕ × World → Result (Unit {0}) × World
  unfolding close_after
  truncate_opened n (ok fd, w) = close_after fd (recorded (truncated fd) (fs.truncate fd n) w)
  truncate_opened n (err e, w) = (err e, w)

  -- The flags are O_WRONLY, and O_RDWR with O_CREAT, as in fcntl.h; `mode` is the default mode.
  pub truncate : ℕ → FilePath → ℕ → World → Result (Unit {0}) × World
  unfolding truncate_opened
  truncate mode path n w = truncate_opened n (recorded (opened path) (fs.open_file path 1 mode) w)

  pub close_opened : Result ℕ × World → Result (Unit {0}) × World
  close_opened (ok fd, w) = close_it fd w
  close_opened (err e, w) = (err e, w)

  pub touch_now : FilePath → Result ℕ → World → Result (Unit {0}) × World
  touch_now path (ok now) w = recorded (touched path) (fs.utime path now) w
  touch_now path (err e) w = (err e, w)

  pub touch : FilePath → ℕ → World → Result (Unit {0}) × World
  unfolding exists touch_now close_opened
  touch path mode w =
      if exists path w
      then touch_now path (fs.gettimeofday w.state) w
      else close_opened (recorded (opened path) (fs.open_file path 66 mode) w)
