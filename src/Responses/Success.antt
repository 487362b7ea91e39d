-- ===== src/Responses/Success.antt =====
-- src/responses/success_response.rs, and the successes of src/responses/responses.rs
use vorleser_server.Responses.Status.{Status, Body, Response, text, object, payload}
use vorleser_server.Prelude.{
  String, ◌≡◌, refl, inl, inr, Option, none, some, [], ◌∷◌, nat_eq, string_eq, bytes_eq, bool_eq,
  arith, Option-cases,
}

pub record ApiResponse (J : Type 0) : Type 0 where
  pub message : Option String
  pub content : Option J
  pub status : Status

module _ {J : Type 0} where
  unfoldable pub with_message : ApiResponse J → String → ApiResponse J
  with_message self message = record self { message = some message }

  unfoldable pub with_data : ApiResponse J → J → ApiResponse J
  with_data self content = record self { content = some content }

  unfoldable pub ok_response : ApiResponse J
  ok_response = record { message = some "Ok"; content = none; status = Status.ok }

  unfoldable pub created : ApiResponse J
  created = record { message = some "Created"; content = none; status = Status.created }

  unfoldable pub accepted : ApiResponse J
  accepted = record { message = some "Accepted"; content = none; status = Status.accepted }

  -- `None` is a panic.
  abbrev pub body_of : Option J → Option String → Option (Body J)
  body_of (some content) _ = some (payload content)
  body_of none (some message) = some (object (("message", text message) ∷ []))
  body_of none none = none

  unfoldable pub respond_to : ApiResponse J → Option (Response J)
  respond_to self = elim (body_of self.content self.message) [
    | none ↦ none
    | some body ↦ some (record { status = self.status; body = body })
  ]

  -- How handlers build an answer: one of the successes, with a message or data set, repeatedly.
  data Built : ApiResponse J → Type 0 where
    built_ok : Built ok_response
    built_created : Built created
    built_accepted : Built accepted
    built_message : {r : ApiResponse J} → Built r → (m : String) → Built (with_message r m)
    built_data : {r : ApiResponse J} → Built r → (j : J) → Built (with_data r j)

  has_message : {r : ApiResponse J} → Built r → (m : String) × (r.message ≡ some m)
  unfolding ok_response created accepted with_message with_data
  has_message built_ok = (_, refl)
  has_message built_created = (_, refl)
  has_message built_accepted = (_, refl)
  has_message (built_message b m) = (m, refl)
  has_message (built_data b j) = has_message b

  -- The data if there is any, else the message.
  abbrev data_or_message : Option J → String → Body J
  data_or_message none m = object (("message", text m) ∷ [])
  data_or_message (some content) m = payload content

  -- No answer that is built from the successes by setting messages and data makes the responder
  -- panic: the response has the status of the answer, and its data or else its message for a body.
  Built-responds :
      (r : ApiResponse J)
      → Built r
      → (m : String) × (r.message ≡ some m)
        × (respond_to r ≡ some (record { status = r.status; body = data_or_message r.content m }))
  unfolding respond_to
  Built-responds r b =
      let (m, e) = has_message b in
      (m, e, elim (Option-cases r.content) [ inr (j, f) ↦ ground arith | inl f ↦ ground arith ])
