-- ===== src/FileBytes/Sample.antt =====
-- A file that takes one byte at a time, and writes it in the background: a write is of the byte that
-- was taken last, and a flush waits for it. It keeps what is documented of files, which shows that the
-- assumptions on files can be met.
use witchcraft_rust_server.Common.{
  ℕ, ◌≤◌, ◌<◌, ◌≡◌, refl, ap, sym, append-nil, List, [], ◌∷◌, ◌++◌, take, length, arith,
}
use witchcraft_rust_server.Poll.{Poll, Result, ok, ready}
use witchcraft_rust_server.FileBytes.{Write, not_yet, failed, wrote, File, FileLaws}

-- What the file holds, and what is written in the background
pub record SlowFile : Type 0 where
  pub content : List ℕ
  pub background : List ℕ

unfoldable pub write_byte : SlowFile → (buf : List ℕ) → SlowFile × Write (Unit {0}) buf
write_byte f [] = (f, not_yet)
write_byte f (b ∷ rest) = (
  record { content = f.content ++ f.background; background = b ∷ [] },
  wrote 1 (omega arith) (omega arith),
)

unfoldable pub flush_bytes : SlowFile → SlowFile × Poll (Result (Unit {0}))
flush_bytes f = (record { content = f.content ++ f.background; background = [] }, ready ok)

unfoldable pub slow_file : File SlowFile ℕ (Unit {0})
unfolding write_byte flush_bytes
slow_file = record { poll_write = write_byte; poll_flush = flush_bytes }

abbrev count : {buf : List ℕ} → Write (Unit {0}) buf → ℕ
count not_yet = 0
count (failed e) = 0
count (wrote n p q) = n

abbrev all_of : SlowFile → List ℕ
all_of f = f.content ++ f.background

written-wrote :
    (f : SlowFile) (buf : List ℕ) (n : ℕ) (p : 0 < n) (q : n ≤ length buf)
    → (write_byte f buf).1 ≡ wrote n p q
    → all_of (write_byte f buf).0 ≡ all_of f ++ take n buf
unfolding write_byte
written-wrote f [] n p q e = cc
written-wrote f (b ∷ rest) n p q e = ap (λ k. all_of f ++ take k (b ∷ rest)) (ap count e)

written-not_yet :
    (f : SlowFile) (buf : List ℕ)
    → (write_byte f buf).1 ≡ not_yet
    → all_of (write_byte f buf).0 ≡ all_of f
unfolding write_byte
written-not_yet f [] e = refl
written-not_yet f (b ∷ rest) e = cc

pub slow_laws : FileLaws slow_file
unfolding slow_file flush_bytes
slow_laws = record {
  written = all_of;
  content = λ f. f.content;
  written-wrote = written-wrote;
  written-not_yet = written-not_yet;
  written-poll_flush = λ f h. append-nil (all_of f);
  content-poll_flush = λ f h. sym (append-nil (all_of f));
}
