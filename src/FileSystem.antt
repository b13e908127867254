-- ===== src/FileSystem.antt =====
-- `std::fs`, as far as crates/gossip/src/node.rs uses it. Which reads and writes fail is up to the
-- operating system.
use percas.Base.{Option, none, some, Bool, true, false, if◌then◌else◌, Result, ok, err, ◌≡◌, arith}
use percas.Text.{String, FilePath, str_eq, eq_refl}

pub data IoError : Type 0 where
  not_read not_written bad_json : IoError

-- `after_failure` is what a write of a text that fails leaves in the file.
pub record FileSystem : Type 0 where
  pub content : FilePath → Option String
  pub read_fails : FilePath → Bool
  pub write_fails : FilePath → Bool
  pub after_failure : FilePath → String → Option String

-- `path.exists()`.
abbrev pub exists : FileSystem → FilePath → Bool
exists fs path = elim (fs.content path) [ none ↦ false | some text ↦ true ]

unfoldable pub read_to_string : FileSystem → FilePath → Result String IoError
read_to_string fs path =
    if fs.read_fails path
    then err not_read
    else elim (fs.content path) [ none ↦ err not_read | some text ↦ ok text ]

abbrev set_content : FileSystem → FilePath → Option String → FileSystem
set_content fs path left = record fs { content = λ p. if str_eq p path then left else fs.content p }

unfoldable pub write : FileSystem → FilePath → String → FileSystem × Result (Unit {0}) IoError
write fs path text =
    if fs.write_fails path
    then (set_content fs path (fs.after_failure path text), err not_written)
    else (set_content fs path (some text), ok tt)

pub content-write :
    (fs : FileSystem) (path : FilePath) (text : String)
    → fs.write_fails path ≡ false
    → (write fs path text).0.content path ≡ some text
unfolding write
content-write fs path text w = ground (arith, eq_refl path)
