-- ===== src/Api/Libraries/Playstates.antt =====
-- What update_playstates of src/api/libraries.rs does to the play states.
use vorleser_server.Prelude.{
  ◌≡◌, refl, sym, ap, ◌∙◌, ◌⊎◌, inl, inr, none, List, nat_eq, string_eq, bytes_eq, bool_eq,
}
use vorleser_server.Exec.{pure}
use vorleser_server.Exec.Ends.{Ends, returns, Ends-handled}
use vorleser_server.Db.{Uuid, User, Tables}
use vorleser_server.Db.Backend.{Backend}
use vorleser_server.Db.Lawful.{IsLawful}
use vorleser_server.Prelude.{ℕ_discrete}
use vorleser_server.Responses.Success.{ok_response, with_data}
use vorleser_server.Models.Playstate.{ApiPlaystate, upsert_all}
use vorleser_server.Models.Playstate.Upsert.{
  get, latest, stored, put_all, get-put_all, get-put_all_ne, upsert_all_lem, with_playstates,
}
use vorleser_server.Api.Answer.{nothing}
use vorleser_server.Api.Libraries.{update_playstates}

-- The play states after an update that was committed: per book the user's last state of the list,
-- or the old one, and everybody else's.
pub record Updated (w : User) (states : List ApiPlaystate) (t t' : Tables) : Type 0 where
  pub others : t' ≡ with_playstates t'.playstates t
  pub own :
      (a : Uuid)
      → get a w.id t'.playstates ≡ stored w (latest a states none) (get a w.id t.playstates)
  pub apart : (a u : Uuid) → (u ≡ w.id) ⊎ (get a u t'.playstates ≡ get a u t.playstates)

module _ (B : Backend) (L : IsLawful B) where
  open L use {view, IsDatabase}

  pub update_playstates_outcome :
      (states : List ApiPlaystate) (w : User) (s : B.State)
      → Ends
          (λ r s'.
            (r ≡ with_data ok_response nothing)
            × (Updated w states (view s) (view s') ⊎ (view s' ≡ view s)))
          (λ e s'. ⊥)
          (update_playstates B states w s)
  unfolding update_playstates
  update_playstates_outcome states w s =
      Ends-handled (λ _. pure (with_data ok_response nothing))
        (L.exclusive_transaction_law (λ e. e) (upsert_all B w states) s
          (λ _ t'. t' ≡ with_playstates (put_all w states (view s).playstates) (view s)) IsDatabase
          (λ s₁ v. upsert_all_lem B L w states s₁ (view s) v))
        (λ _ s' h. returns _ s' (refl, inl (updated h))) (λ e s' h. returns _ s' (refl, inr h.0))
    where
      updated :
          {t' : Tables}
          → t' ≡ with_playstates (put_all w states (view s).playstates) (view s)
          → Updated w states (view s) t'
      updated h = record {
        others = h ∙ ap (λ t. with_playstates t.playstates (view s)) (sym h);
        own = λ a. ap (λ t. get a w.id t.playstates) h ∙ get-put_all w a states (view s).playstates;
        apart = λ a u. elim (ℕ_discrete u w.id) [
          | yes e ↦ inl e
          | no n ↦
              inr (
                ap (λ t. get a u t.playstates) h
                ∙ get-put_all_ne w a u states (view s).playstates n)
        ];
      }
