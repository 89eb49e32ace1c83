-- ===== src/Compression.antt =====
-- witchcraft-server/src/logging/logger/rolling_file.rs: the compression of one archived log, which
-- runs beside the appender and ends anywhere when the process dies. The three files of the log are
-- the state; the encoder `GzipEncoder` is a parameter, and so is the answer of each call of the
-- system. No second task compresses the same log, since no two archives have one number.
pub mod Safety
pub mod Completion
mod Tests
use witchcraft_rust_server.Common.{
  ℕ, zero, suc, ◌≡◌, Option, none, some, List, [], ◌∷◌, ◌++◌, take, drop,
}
use witchcraft_rust_server.Http.{Text}

-- The contents of the files at `archive_path`, `archive_gz_tmp_path` and `archive_gz_path`
pub record Files : Type 0 where
  pub raw : Option Text
  pub tmp : Option Text
  pub gz : Option Text

-- `write` and `shutdown` give the bytes that they write to the file below.
pub record Encoder : Type 1 where
  pub E : Type 0
  pub new : E
  pub write : E → Text → E × Text
  pub shutdown : E → Text

-- A call of the system works, where a read takes one more byte than it says, at most; or it fails,
-- where a write may have written some bytes.
pub data Answer : Type 0 where
  works : ℕ → Answer
  fails : Text → Answer

module _ (enc : Encoder) where
  -- What `compress` does next
  pub data Stage : Type 0 where
    open_source : Stage
    create_target : Text → Stage
    copy : Text → enc.E → Stage
    rename_target : Stage
    remove_source : Stage
    ended : Stage

  abbrev append_text : Text → Option Text → Option Text
  append_text bytes none = none
  append_text bytes (some t) = some (t ++ bytes)

  abbrev append_tmp : Text → Files → Files
  append_tmp bytes f = record f { tmp = append_text bytes f.tmp }

  abbrev after_open : Option Text → Files → Stage × Files
  after_open none f = (ended, f)
  after_open (some source) f = (create_target source, f)

  -- `io::copy` takes a chunk of the source; where it is at the end, `shutdown` follows.
  abbrev copy_chunk : ℕ → Text → enc.E → Files → Stage × Files
  copy_chunk n [] e f = (rename_target, append_tmp (enc.shutdown e) f)
  copy_chunk n (b ∷ bs) e f =
      let (e', bytes) = enc.write e (take (suc n) (b ∷ bs)) in
      (copy (drop (suc n) (b ∷ bs)) e', append_tmp bytes f)

  abbrev after_rename : Option Text → Files → Stage × Files
  after_rename none f = (ended, f)
  after_rename (some t) f = (remove_source, record f { tmp = none; gz = some t })

  -- The next call of the system in `compress`
  unfoldable pub compress : Answer → Stage → Files → Stage × Files
  compress a ended f = (ended, f)
  compress (works n) open_source f = after_open f.raw f
  compress (works n) (create_target source) f = (copy source enc.new, record f { tmp = some [] })
  compress (works n) (copy source e) f = copy_chunk n source e f
  compress (works n) rename_target f = after_rename f.tmp f
  compress (works n) remove_source f = (ended, record f { raw = none })
  compress (fails junk) (copy source e) f = (ended, append_tmp junk f)
  compress (fails junk) s f = (ended, f)

  unfoldable pub compress_all : List Answer → Stage → Files → Stage × Files
  unfolding compress
  compress_all [] s f = (s, f)
  compress_all (a ∷ rest) s f = let (s', f') = compress a s f in compress_all rest s' f'

  -- `rotate` moves the log to the archive, and starts the task.
  unfoldable pub rotate : Text → Files → Stage × Files
  rotate log f = (open_source, record f { raw = some log })

  unfoldable pub clear_tmp_files : Files → Files
  clear_tmp_files f = record f { tmp = none }

  -- The task for the log, where `uncompressed_logs` finds it
  abbrev spawn_for : Option Text → Stage
  spawn_for none = ended
  spawn_for (some log) = open_source

  unfoldable pub restart_compression : Files → Stage × Files
  restart_compression f = (spawn_for f.raw, f)

  -- A log that is archived once, in a process that dies and starts again any number of times
  pub data Reach (log : Text) : Stage → Files → Type 0 where
    archived : (f : Files) → f.gz ≡ none → Reach log (rotate log f).0 (rotate log f).1
    stepped :
        {s : Stage} {f : Files} (a : Answer)
        → Reach log s f
        → Reach log (compress a s f).0 (compress a s f).1
    died : {s : Stage} {f : Files} → Reach log s f → Reach log ended f
    restarted :
        {s : Stage} {f : Files}
        → Reach log s f
        → Reach log
            (restart_compression (clear_tmp_files f)).0
            (restart_compression (clear_tmp_files f)).1
