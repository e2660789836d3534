-- ===== src/Transport/Error.antt =====
-- The errors of internal/transport, and what it uses of the zlib library.
use gosh.Base.{length, ◌+◌, ℕ, Bytes, Result, ok, err, ltb, if◌then◌else◌}

pub data TransportError : Type 0 where
  short_fragment : TransportError
  bad_compressed_payload : TransportError
  decompress_failed : TransportError
  payload_too_large : TransportError

pub data ZlibError : Type 0 where
  bad_header bad_stream : ZlibError

-- What internal/transport uses of compress/zlib: a writer that takes all of its input and is
-- closed, and a reader of a slice through a limit of so many bytes. `bad_header` is an error of
-- `zlib.NewReader`, `bad_stream` one of the reads behind it.
pub record Zlib : Type 0 where
  pub compress : Bytes → Bytes
  pub read : Bytes → ℕ → Result ZlibError Bytes

abbrev pub max_uncompressed : ℕ
max_uncompressed = 4194304

unfoldable pub uncompressed : Result ZlibError Bytes → Result TransportError Bytes
uncompressed (err bad_header) = err bad_compressed_payload
uncompressed (err bad_stream) = err decompress_failed
uncompressed (ok out) = if ltb max_uncompressed (length out) then err payload_too_large else ok out

unfoldable pub uncompress : Zlib → Bytes → Result TransportError Bytes
unfolding uncompressed
uncompress z b = uncompressed (z.read b (max_uncompressed + 1))
