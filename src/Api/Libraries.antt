-- ===== src/Api/Libraries.antt =====
-- src/api/libraries.rs: the handlers.
pub mod Playstates
use vorleser_server.Prelude.{
  true, List, [], ◌∷◌, ◌++◌, map, ◌==◌, nat_eq, string_eq, bytes_eq, bool_eq, ok,
}
use vorleser_server.Exec.{Exec, pure, ◌>>=◌, ◌>>◌, map_err, attempt, continue}
use vorleser_server.Db.{User, Audiobook, Chapter}
use vorleser_server.Db.Table
use vorleser_server.Db.Backend.{Backend}
use vorleser_server.Responses.Success.{ApiResponse, ok_response, with_data}
use vorleser_server.Models.User
use vorleser_server.Models.Playstate.{ApiPlaystate, to_api_playstate, upsert_all}
use vorleser_server.Api.Answer.{
  Stop, panicked, Answer, nothing, libraries_answer, things_answer, library_out,
}

module _ (B : Backend) where
  abbrev pub Handler : Type 0
  Handler = Exec B.State Stop (ApiResponse Answer)

  -- `unwrap()` on an error panics.
  abbrev unwrap : {E A : Type 0} → Exec B.State E A → Exec B.State Stop A
  unwrap = map_err (λ _. panicked)

  unfoldable pub libraries : User → Handler
  libraries current_user = do
    libs ← unwrap (B.libraries.load (λ _. true))
    pure (with_data ok_response (libraries_answer (map library_out libs)))

  -- The chapters of one book after another.
  unfoldable pub chapters_of : List Audiobook → Exec B.State Stop (List Chapter)
  chapters_of [] s = (ok [], s)
  chapters_of (b ∷ bs) s =
      continue (λ cs s'. continue (λ rest. pure (cs ++ rest)) (chapters_of bs s'))
        (unwrap (B.chapters.load (λ c. c.audiobook_id == b.id)) s)

  unfoldable pub all_the_things : User → Handler
  unfolding chapters_of
  all_the_things current_user = do
    libs ← unwrap (User.accessible_libraries B current_user)
    books ← unwrap (User.accessible_audiobooks B current_user)
    chapters ← chapters_of books
    playstates ← unwrap (B.playstates.load (λ p. p.user_id == current_user.id))
    pure (
        with_data ok_response
          (things_answer (map library_out libs) books chapters (map to_api_playstate playstates)))

  -- The result of the transaction is dropped.
  unfoldable pub update_playstates : List ApiPlaystate → User → Handler
  update_playstates playstate current_user =
      attempt (B.exclusive_transaction (λ e. e) (upsert_all B current_user playstate))
        (λ _. pure (with_data ok_response nothing))
