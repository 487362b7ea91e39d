-- ===== src/Ffmpeg/Util.antt =====
-- src/worker/util.rs, and new_media_error of src/worker/error.rs.
use vorleser_server.Prelude.{
  ◌>>=◌ as ◌>>=?◌, String, true, Option, none, some, List, [], ◌∷◌, if◌then◌else◌, ◌==◌, nat_eq,
  string_eq, bytes_eq, bool_eq, Result, ok, err,
}
use vorleser_server.Prelude.Int.{ℤ, pos, negsuc}
use vorleser_server.Errors.{
  Failure, worker_error, WorkerError, media_error, Fault, failed, panicked,
}
use vorleser_server.Exec.{Exec, pure, raise}
use vorleser_server.Db.{F64}
use vorleser_server.Ffmpeg.{Ffmpeg, AvRational, CText, AvDictionary}

-- HashMap<String, String>
abbrev pub StringMap : Type 0
StringMap = List (String × String)

abbrev pub get : String → StringMap → Option String
get key [] = none
get key ((k, v) ∷ m) = let rest = get key m in if k == key then some v else rest

abbrev pub insert : String → String → StringMap → StringMap
insert key value [] = (key, value) ∷ []
insert key value ((k, v) ∷ m) =
    let rest = insert key value m in if k == key then (k, value) ∷ m else (k, v) ∷ rest

-- The panic of `unwrap`.
abbrev pub unwrapped : {A : Type 0} → Result Failure A → Result Fault A
unwrapped (ok a) = ok a
unwrapped (err e) = err (panicked "unwrap")

module _ {S : Type 0} (F : Ffmpeg S) where
  abbrev pub new_media_error : ℤ → WorkerError
  new_media_error code = media_error (F.av_strerror code) code

  abbrev pub check_av_result : ℤ → Exec S Fault ℤ
  check_av_result (negsuc n) = raise (failed (worker_error (new_media_error (negsuc n))))
  check_av_result (pos n) = pure (pos n)

  unfoldable pub string_from_ptr : Option CText → Result Failure (Option String)
  string_from_ptr none = ok none
  string_from_ptr (some text) = F.to_str text >>=? λ s. ok (some s)

  abbrev pub insert_all : List (CText × CText) → StringMap → Result Fault StringMap
  insert_all [] m = ok m
  insert_all ((k, v) ∷ es) m = unwrapped (F.to_str k) >>=? λ key.
      unwrapped (F.to_str v) >>=? λ value. insert_all es (insert key value m)

  unfoldable pub dict_to_map : AvDictionary → Result Fault StringMap
  dict_to_map none = ok []
  dict_to_map (some es) = insert_all es []

  unfoldable pub apply_timebase : ℤ → AvRational → F64
  apply_timebase time timebase =
      F.f64_mul (F.f64_of time) (F.f64_div (F.f64_of timebase.num) (F.f64_of timebase.den))

  -- The flag is kept under its mutex from the test to the assignment.
  unfoldable pub ensure_av_register_all : Exec S Fault (Unit {0})
  ensure_av_register_all s =
      if F.initialized s then (ok tt, s) else (ok tt, F.set_initialized true (F.av_register_all s))

  unfoldable pub shut_up_ffmpeg : S → S
  shut_up_ffmpeg s = F.av_log_set_quiet s
