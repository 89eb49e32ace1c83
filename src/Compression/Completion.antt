-- ===== src/Compression/Completion.antt =====
-- rolling_file.rs: a new start ends the compression that an earlier process has left.
use witchcraft_rust_server.Common.{ℕ, ◌+◌, ◌≡◌, none, length}
use witchcraft_rust_server.Http.{Text}
use witchcraft_rust_server.Compression.{
  Files, Encoder, Stage, open_source, create_target, copy, rename_target, remove_source, ended,
}
use witchcraft_rust_server.Compression.Safety.{EncoderLaws, Compressed, Inv}

module _ (enc : Encoder) (laws : EncoderLaws enc) (log : Text) where
  -- The calls left, at most, where each works
  abbrev left : Stage enc → ℕ
  left open_source = 5 + length log
  left (create_target source) = 4 + length source
  left (copy source e) = 3 + length source
  left rename_target = 2
  left remove_source = 1
  left ended = 0

  abbrev Done : Files → Type 0
  Done f = Compressed enc laws log f × (f.raw ≡ none)

  -- A task that has not failed
  abbrev Running : Stage enc → Files → Type 0
  Running ended f = Done f
  Running s f = Inv enc laws log s f
