-- ===== src/Codec.antt =====
-- How the program reads and writes text and JSON: Python's UTF-8 text files and its `json` module,
-- as an interface. `none` is what they raise.
use spiffile.Prelude.{Text, Option, some, ◌≡◌}
use spiffile.Prelude.Value.{Value}
use spiffile.Disk.{Bytes}

pub record Codec : Type 0 where
  -- `bytes.decode()`, or `UnicodeDecodeError`
  pub decode : Bytes → Option Text
  -- `str.encode()`
  pub encode : Text → Bytes
  -- `json.loads`, or `JSONDecodeError`
  pub loads : Text → Option Value
  -- `json.dumps(doc, indent=2)`
  pub dumps : Value → Text
  -- `json.dumps(doc, separators=(",", ":"), sort_keys=True)`
  pub dumps_compact : Value → Text
  -- `str(v)` for a value that is no text
  pub py_str : Value → Text

-- A text that is written is read back.
pub record ReadsBack (c : Codec) : Type 0 where
  pub decode-encode : (t : Text) → c.decode (c.encode t) ≡ some t
