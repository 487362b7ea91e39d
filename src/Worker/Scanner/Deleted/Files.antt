-- ===== src/Worker/Scanner/Deleted/Files.antt =====
-- Checksums of src/worker/hashing.rs depend on the files only.
use vorleser_server.Prelude.{
  ℕ, String, ◌≡◌, refl, ◌∙◌, inl, inr, List, [], ◌∷◌, nat_eq, string_eq, bytes_eq, bool_eq, Result,
  ok, err, Bool-cases, ◌>>=◌,
}
use vorleser_server.Errors.{Failure}
use vorleser_server.Worker.Host.{Host, entries}
use vorleser_server.Worker.Hashing.{checksum_file, checksum_dir}
use vorleser_server.Worker.Hashing.{
  update_hash_from_file, update_hash_from_entry, update_hash_from_entries, without_root,
}

-- The same files, as far as checksums go.
pub record SameFiles {S : Type 0} (H : Host S) (s s' : S) : Type 0 where
  pub exists : (p : String) → H.exists p s' ≡ H.exists p s
  pub is_dir : (p : String) → H.is_dir p s' ≡ H.is_dir p s
  pub is_file : (p : String) → H.is_file p s' ≡ H.is_file p s
  pub reads : (p : String) → H.reads p s' ≡ H.reads p s
  pub sorted_walk : (p : String) → H.sorted_walk p s' ≡ H.sorted_walk p s

pub same_again :
    {S : Type 0} (H : Host S) (s s' s'' : S)
    → SameFiles H s s'
    → SameFiles H s' s''
    → SameFiles H s s''
same_again H s s' s'' f g = record {
  exists = λ p. g.exists p ∙ f.exists p;
  is_dir = λ p. g.is_dir p ∙ f.is_dir p;
  is_file = λ p. g.is_file p ∙ f.is_file p;
  reads = λ p. g.reads p ∙ f.reads p;
  sorted_walk = λ p. g.sorted_walk p ∙ f.sorted_walk p;
}

module _ {S : Type 0} (H : Host S) (s s' : S) (f : SameFiles H s s') where
  entry_same :
      (ctx : List ℕ) (path p : String)
      → update_hash_from_entry H ctx path p s' ≡ update_hash_from_entry H ctx path p s
  unfolding update_hash_from_entry update_hash_from_file
  entry_same ctx path p = elim (Bool-cases (H.is_file p s)) [
    | inl e ↦ rw (f.is_file p, e, f.reads p) refl
    | inr e ↦ rw (f.is_file p, e) refl
  ]

  entries_same :
      (ctx : List ℕ) (path : String) (es : List (Result Failure String))
      → update_hash_from_entries H ctx path es s' ≡ update_hash_from_entries H ctx path es s
  unfolding update_hash_from_entries
  entries_same ctx path [] = refl
  entries_same ctx path (err e ∷ es) = entries_same ctx path es
  entries_same ctx path (ok p ∷ es) =
      rw (entry_same ctx path p)
        (next (λ ctx. entries_same ctx path es) (update_hash_from_entry H ctx path p s))
    where
      next :
          ((ctx : List ℕ)
            → update_hash_from_entries H ctx path es s' ≡ update_hash_from_entries H ctx path es s)
          → (r : Result Failure (List ℕ))
          → (r >>= λ ctx. update_hash_from_entries H ctx path es s')
            ≡ (r >>= λ ctx. update_hash_from_entries H ctx path es s)
      next same (err e) = refl
      next same (ok ctx) = same ctx

  pub file_same : (p : String) → checksum_file H p s' ≡ checksum_file H p s
  unfolding checksum_file update_hash_from_file
  file_same p = rw (f.reads p) refl

  pub dir_same : (p : String) → checksum_dir H p s' ≡ checksum_dir H p s
  unfolding checksum_dir
  dir_same p =
      rw (f.sorted_walk p, entries_same [] p (without_root H (entries (H.sorted_walk p s)))) refl
