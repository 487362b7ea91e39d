-- ===== src/Worker/Hashing.antt =====
-- src/worker/hashing.rs. A SHA-256 context is the bytes that it was updated with.
use vorleser_server.Prelude.{
  ◌>>=◌, ℕ, String, true, false, Option, none, some, List, [], ◌∷◌, ◌++◌, Result, ok, err, ◌≡◌,
  refl, ◌∙◌, ap, sym, append_assoc, append-nil,
}
use vorleser_server.Errors.{Failure, foreign}
use vorleser_server.Worker.Host.{Host, entries}
use vorleser_server.Path.{strip_prefix}

-- The loop of `update_hash_from_file`: a read of nothing ends it.
unfoldable pub update_loop : List ℕ → List (Result Failure (List ℕ)) → Result Failure (List ℕ)
update_loop ctx [] = ok ctx
update_loop ctx (err e ∷ _) = err e
update_loop ctx (ok [] ∷ _) = ok ctx
update_loop ctx (ok (b ∷ bs) ∷ reads) = update_loop (ctx ++ b ∷ bs) reads

module _ {S : Type 0} (H : Host S) where
  unfoldable pub update_hash_from_file : List ℕ → String → S → Result Failure (List ℕ)
  unfolding update_loop
  update_hash_from_file ctx path s = H.reads path s >>= update_loop ctx

  unfoldable pub checksum_file : String → S → Result Failure (List ℕ)
  unfolding update_hash_from_file
  checksum_file path s = update_hash_from_file [] path s >>= λ ctx. ok (H.sha256 ctx)

  abbrev pub update_hash_from_name : List ℕ → Option String → Result Failure (List ℕ)
  update_hash_from_name ctx none = err (foreign "prefix not found")
  update_hash_from_name ctx (some name) = ok (ctx ++ H.as_bytes name)

  -- One entry of the walk.
  unfoldable pub update_hash_from_entry : List ℕ → String → String → S → Result Failure (List ℕ)
  unfolding update_hash_from_file
  update_hash_from_entry ctx path p s =
      elim (H.is_file p s) [ true ↦ update_hash_from_file ctx p s | false ↦ ok ctx ] >>= λ ctx.
      update_hash_from_name ctx (strip_prefix p path)

  -- The loop of `checksum_dir`; an entry that cannot be read is passed over.
  unfoldable pub update_hash_from_entries :
      List ℕ → String → List (Result Failure String) → S → Result Failure (List ℕ)
  unfolding update_hash_from_entry
  update_hash_from_entries ctx path [] s = ok ctx
  update_hash_from_entries ctx path (err _ ∷ es) s = update_hash_from_entries ctx path es s
  update_hash_from_entries ctx path (ok p ∷ es) s =
      update_hash_from_entry ctx path p s >>= λ ctx. update_hash_from_entries ctx path es s

  abbrev pub without_root : List (Result Failure String) → List (Result Failure String)
  without_root [] = []
  without_root (_ ∷ es) = es

  unfoldable pub checksum_dir : String → S → Result Failure (List ℕ)
  unfolding update_hash_from_entries
  checksum_dir path s =
      update_hash_from_entries [] path (without_root (entries (H.sorted_walk path s))) s >>= λ ctx.
      ok (H.sha256 ctx)

-- The reads of a file that holds `content`: pieces of it, none of them empty, and then nothing.
pub data Reads : List ℕ → List (Result Failure (List ℕ)) → Type 0 where
  at_end : (after : List (Result Failure (List ℕ))) → Reads [] (ok [] ∷ after)
  piece :
      (b : ℕ) (bs content : List ℕ) (reads : List (Result Failure (List ℕ)))
      → Reads content reads
      → Reads (b ∷ bs ++ content) (ok (b ∷ bs) ∷ reads)

update_loop_lem :
    (ctx content : List ℕ) (reads : List (Result Failure (List ℕ)))
    → Reads content reads
    → update_loop ctx reads ≡ ok (ctx ++ content)
unfolding update_loop
update_loop_lem ctx _ _ (at_end after) = ap ok (sym (append-nil ctx))
update_loop_lem ctx _ _ (piece b bs content reads r) =
    update_loop_lem (ctx ++ b ∷ bs) content reads r ∙ ap ok (append_assoc ctx (b ∷ bs) content)

-- However a file is cut into reads, its checksum is that of its whole content.
pub checksum_file_lem :
    {S : Type 0} (H : Host S) (path : String) (s : S) (content : List ℕ)
    (reads : List (Result Failure (List ℕ)))
    → H.reads path s ≡ ok reads
    → Reads content reads
    → checksum_file H path s ≡ ok (H.sha256 content)
unfolding checksum_file update_hash_from_file
checksum_file_lem H path s content reads opened r =
    rw (opened, update_loop_lem [] content reads r) refl
