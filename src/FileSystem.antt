-- ===== src/FileSystem.antt =====
-- The file system, which the program does not implement: what the source calls of
-- `std::filesystem` and of file streams, with each call's documented ways to fail.
use semantic_search_engine.Base.{Bool, true, false, ◌≡◌, Option, some, Bytes}
use semantic_search_engine.Exception.{Result, ok}

pub record FileSystem : Type 1 where
  pub State : Type 0
  -- `canonical` throws where the path does not exist, `weakly_canonical` on other errors
  pub canonical : State → Bytes → Result Bytes
  pub weakly_canonical : State → Bytes → Result Bytes
  pub exists : State → Bytes → Result Bool
  pub is_regular_file : State → Bytes → Result Bool
  -- the bytes that an `std::ifstream` reads, `none` where it does not open
  pub read : State → Bytes → Option Bytes
  -- opening an `std::ofstream` that truncates, `none` where it fails
  pub truncate : State → Bytes → Option State
  -- `out.write` on the file just opened, and the flush when the stream is destroyed: the state,
  -- with less of the contents where that fails, and whether the stream is still good
  pub write : State → Bytes → Bytes → State × Bool
  -- `remove(path, ec)`: the state, the result, and whether `ec` is set
  pub remove : State → Bytes → State × Bool × Bool

-- What the code relies on, for one path: writes do not fail half-way, what is written is read back,
-- and its file exists and is a regular file; a removed file is gone.
pub record WritesBack (fs : FileSystem) (path : Bytes) : Type 0 where
  pub stays_good :
      (st st' : fs.State) (data_bytes : Bytes)
      → fs.truncate st path ≡ some st'
      → (fs.write st' path data_bytes).1 ≡ true
  pub read_back :
      (st st' : fs.State) (data_bytes : Bytes)
      → fs.truncate st path ≡ some st'
      → (fs.write st' path data_bytes).1 ≡ true
      → fs.read (fs.write st' path data_bytes).0 path ≡ some data_bytes
  pub now_regular :
      (st st' : fs.State) (data_bytes : Bytes)
      → fs.truncate st path ≡ some st'
      → fs.is_regular_file (fs.write st' path data_bytes).0 path ≡ ok true
  pub now_exists :
      (st st' : fs.State) (data_bytes : Bytes)
      → fs.truncate st path ≡ some st'
      → fs.exists (fs.write st' path data_bytes).0 path ≡ ok true
  pub gone :
      (st : fs.State)
      → (fs.remove st path).1 ≡ true
      → fs.exists (fs.remove st path).0 path ≡ ok false
