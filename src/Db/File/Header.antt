-- ===== src/Db/File/Header.antt =====
-- The header that `_pack_header` writes is the one that `_unpack_header` reads.
use snapdb.Prelude.{ℕ, ◌≡◌, ◌<◌, ◌^◌, subst, ap, List, ◌++◌, arith}
use snapdb.Prelude.Eq.{nat_eq}
use snapdb.Result.{ok}
use snapdb.Bytes.{slice, to_bytes, from_bytes}
use snapdb.Value.{eq_codes}
use snapdb.Bytes.Numbers.{from_bytes-to_bytes}
use snapdb.Db.File.{magic, Header, pack_header, header_of, unpack_header}

-- The bytes of a header
abbrev bytes_of : Header → List ℕ
bytes_of (version, page_size, flags, schema_offset) =
    magic
    ++ to_bytes 2 version
    ++ to_bytes 2 page_size
    ++ to_bytes 4 flags
    ++ to_bytes 8 schema_offset

Fits : Header → Type 0
Fits (version, page_size, flags, schema_offset) =
    (version < 256 ^ 2) × (page_size < 256 ^ 2) × (flags < 256 ^ 4) × (schema_offset < 256 ^ 8)

pack_header-cases :
    (h : Header) (buf : List ℕ) → pack_header h ≡ ok buf → Fits h × (bytes_of h ≡ buf)
unfolding pack_header Fits
pack_header-cases (v, p, f, o) buf e = ground arith

header_of-bytes : (h : Header) → Fits h → header_of (bytes_of h) ≡ h
unfolding header_of slice to_bytes Fits
header_of-bytes (v, p, f, o) (fv, fp, ff, fo) = rw (
  from_bytes-to_bytes 2 v fv,
  from_bytes-to_bytes 2 p fp,
  from_bytes-to_bytes 4 f ff,
  from_bytes-to_bytes 8 o fo,
)

-- The bytes that pack_header gives for a header of version 1 are read back by unpack_header as that
-- header.
pub unpack_header-pack_header :
    (page_size flags schema_offset : ℕ) (buf : List ℕ)
    → pack_header (1, page_size, flags, schema_offset) ≡ ok buf
    → unpack_header buf ≡ ok (1, page_size, flags, schema_offset)
unfolding unpack_header slice to_bytes from_bytes eq_codes
unpack_header-pack_header p f o buf e =
    subst (λ b. unpack_header b ≡ ok (1, p, f, o)) (pack_header-cases (1, p, f, o) buf e).1
      (ap ok (header_of-bytes (1, p, f, o) (pack_header-cases (1, p, f, o) buf e).0))
