-- ===== src/Mllt/Tagging/Tests.antt =====
-- The theorems on mlltify of src/helpers/mllt.rs at a concrete disc.
use vorleser_server.Prelude.{
  ℕ, String, string_eq, ◌==◌, ◌≡◌, ◌≢◌, refl, Option, none, some, List, [], ◌∷◌, if◌then◌else◌,
  Result, ok, err,
}
use vorleser_server.Errors.{Failure, foreign}
use vorleser_server.Exec.Ends.{Ends, returns, fails, Ends-ok}
use vorleser_server.Mllt.{Mp3Frame, build_mllt}
use vorleser_server.Mllt.Tagging.{Id3, mlltify}
use vorleser_server.Mllt.Tagging.Once.{Music, IsTagging, Tagged, mlltify_outcome, mlltify-mlltify}

abbrev Named : Type 0
Named = String × List ℕ

abbrev lookup : String → List Named → Option Named
lookup id [] = none
lookup id (f ∷ fs) = if f.0 == id then some f else lookup id fs

record Disc : Type 0 where
  tags : String → Option (List Named)
  frames : String → Option (List Mp3Frame)

abbrev from_disc : {A : Type 0} → Option A → Result Failure A
from_disc none = err (foreign "no such file")
from_disc (some a) = ok a

abbrev with_tag : String → List Named → Disc → Disc
with_tag p t d = record d { tags = λ q. if q == p then some t else d.tags q }

abbrev player : Id3 Disc
player = record {
  Tag = List Named;
  Frame = Named;
  with_content = λ id content. (id, content);
  set_tag_alter_preservation = λ b f. f;
  set_file_alter_preservation = λ b f. f;
  get = lookup;
  add_frame = λ f tag. f ∷ tag;
  read_from_path = λ p d. (from_disc (d.tags p), d);
  write_to_path = λ tag p d. (ok tt, with_tag p tag d);
  read_frames = λ p d. (from_disc (d.frames p), d);
}

abbrev seen : Disc → Music player
seen d = record { tags = d.tags; frames = d.frames }

reads :
    {A : Type 0} (o : Option A) (d : Disc)
    → Ends (λ a d'. (seen d' ≡ seen d) × (o ≡ some a)) (λ _ d'. seen d' ≡ seen d) (from_disc o, d)
reads none d = fails _ d refl
reads (some a) d = returns a d (refl, refl)

found : (f : Named) (t : List Named) → lookup f.0 (f ∷ t) ≢ none
found f t = rw ((string_eq.same_iff f.0 f.0).0 refl) (λ e. cc)

abbrev player-IsTagging : IsTagging player
player-IsTagging = record {
  view = seen;
  read_law = λ p d. reads (d.tags p) d;
  frames_law = λ p d. reads (d.frames p) d;
  write_law = λ t p d. returns tt _ refl;
  id_of = λ f. f.0;
  id_law = λ n b. refl;
  tag_flag_law = λ b f. refl;
  file_flag_law = λ b f. refl;
  get_law = found;
}

-- One file with two bit rates and no table.
abbrev disc : Disc
disc = record {
  tags = λ p. if p == "a.mp3" then some [] else none;
  frames = λ p.
      if p == "a.mp3"
      then some (
          record { size = 200; bitrate = 128; duration = some 26122448 }
          ∷ record { size = 417; bitrate = 160; duration = some 26122448 }
          ∷ [])
      else none;
}

mlltify_outcome_example : Tagged player "a.mp3" (seen disc) (seen (mlltify player "a.mp3" disc).1)
unfolding mlltify build_mllt
mlltify_outcome_example = Ends-ok (mlltify_outcome player player-IsTagging "a.mp3" disc)

mlltify-mlltify_example :
    seen (mlltify player "a.mp3" (mlltify player "a.mp3" disc).1).1
    ≡ seen (mlltify player "a.mp3" disc).1
unfolding mlltify build_mllt
mlltify-mlltify_example =
    mlltify-mlltify player player-IsTagging "a.mp3" disc (mlltify player "a.mp3" disc).1 refl
