-- ===== src/Ports/Ids.antt =====
-- `ParseSpiffeID` of go/spiffeid.go and `SpiffeId.parse` of ts/src/spiffeId.ts against
-- `SpiffeId.parse` of python/src/spiffile/spiffe_id.py.
use spiffile.Prelude.{Text, ◌≡◌, ◌↔◌, sym, ap, ◌∙◌, arith}
use spiffile.Errors.{ok}
use spiffile.SpiffeId.{SpiffeId, parse, to_str, parse_text}
use spiffile.Ports.Go
use spiffile.Ports.Ts
use spiffile.Ports.Units.{utf16, IsNarrow, IsNarrow-utf16, utf16-IsNarrow, to_str-IsNarrow}
use spiffile.SpiffeId.Parsing.{parse_iff}
use spiffile.Prelude.{All}
use spiffile.Prelude.Value.{str}
use spiffile.Ports.Go.Parsing.{go_parse}
use spiffile.Ports.Ts.Parsing.{parse_units-parse_text}

-- A text that parses is narrow.
parse_text-IsNarrow : (t : Text) (id : SpiffeId) → parse_text t ≡ ok id → All IsNarrow t
parse_text-IsNarrow t id h =
    let (same, valid) = (parse_iff (str t) id).0 (unfold parse in h) in
    let e : t ≡ to_str id = ground arith in rw e (to_str-IsNarrow id valid)

parse_text-utf16 :
    (t : Text) (id : SpiffeId) → (parse_text (utf16 t) ≡ ok id) ↔ (parse_text t ≡ ok id)
parse_text-utf16 t id = (
  λ h. ap parse_text (sym (IsNarrow-utf16 t (parse_text-IsNarrow (utf16 t) id h))) ∙ h,
  λ h. ap parse_text (utf16-IsNarrow t (parse_text-IsNarrow t id h)) ∙ h,
)

-- The parsers in Go, TypeScript and Python agree: `ParseSpiffeID` of the Go package returns for
-- every text the ID that `SpiffeId.parse` of the Python package returns, or fails at the same test
-- where that raises, and `SpiffeId.parse` of the TypeScript package returns an ID for the UTF-16
-- form of a text exactly if the one in Python returns this ID for the text.
pub parse_spiffe_id-parse :
    (t : Text) (id : SpiffeId)
    → (Go.parse_spiffe_id t ≡ parse (str t))
      × ((Ts.parse_units (utf16 t) ≡ ok id) ↔ (parse (str t) ≡ ok id))
unfolding parse
parse_spiffe_id-parse t id =
    (go_parse t, rw (parse_units-parse_text (utf16 t)) (parse_text-utf16 t id))
