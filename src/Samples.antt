-- ===== src/Samples.antt =====
-- A concrete digest for the tests: 32 bytes of the number that the input stands for. It stands in for
-- `kswarm_cli.encoding.sha256`, of which only the length of a digest is used.
use kswarm.Prelude.{◌≡◌, length}
use kswarm.Prelude.Bytes.{Bytes}
use kswarm.Prelude.Words.{le_bytes, le_value, length-le_bytes}

unfoldable pub toy_sha256 : Bytes → Bytes
toy_sha256 b = le_bytes 32 (le_value b)

pub toy_sha256-length : (b : Bytes) → length (toy_sha256 b) ≡ 32
unfolding toy_sha256
toy_sha256-length b = length-le_bytes 32 (le_value b)
