-- ===== src/Mllt/Tagging.antt =====
-- src/helpers/mllt.rs: mlltify, which puts a seek table into the ID3 tag of a file. The tags and the
-- frames of MP3 files are read and written by the crates id3 and mp3_metadata, which are a parameter.
mod Tests
pub mod Fixture
pub mod Once
use vorleser_server.Prelude.{ℕ, String, Bool, false, Option, none, some, List, ◌≢◌, Result, ok, err}
use vorleser_server.Errors.{Failure, foreign, Fault, failed, panicked, out_of_fuel}
use vorleser_server.Exec.{Exec, pure, continue, converted, map_err, ◌>>=◌}
use vorleser_server.Exec.Ends.{Ends, returns, fails, Ends-bind}
use vorleser_server.Mllt.{
  Mp3Frame, MlltError, incalculable_duration, unexpected_underflow, panicked as mllt_panicked,
  build_mllt,
}

pub record Id3 (S : Type 0) : Type 1 where
  pub Tag : Type 0
  pub Frame : Type 0
  -- Frame::with_content(id, Content::Unknown(bytes))
  pub with_content : String → List ℕ → Frame
  pub set_tag_alter_preservation : Bool → Frame → Frame
  pub set_file_alter_preservation : Bool → Frame → Frame
  pub get : String → Tag → Option Frame
  pub add_frame : Frame → Tag → Tag
  pub read_from_path : String → Exec S Failure Tag
  -- tag.write_to_path(path, Version::Id3v23)
  pub write_to_path : Tag → String → Exec S Failure (Unit {0})
  -- mp3_metadata::read_from_file(path), as far as its frames
  pub read_frames : String → Exec S Failure (List Mp3Frame)

abbrev pub fault : MlltError → Fault
fault incalculable_duration =
    failed (foreign "Could not calculate mp3 frame duration. Try checking the files with mp3val.")
fault unexpected_underflow = failed (
    foreign "Unexpected underflow while assembling MLLT table. Try checking the files with mp3val.")
fault mllt_panicked = panicked "build_mllt"

module _ {S : Type 0} (I : Id3 S) where
  unfoldable pub mllt_frame : List ℕ → I.Frame
  mllt_frame t =
      I.set_file_alter_preservation false
        (I.set_tag_alter_preservation false (I.with_content "MLLT" t))

  abbrev pub built : List Mp3Frame → Exec S Fault (Option (List ℕ))
  built frames s = converted fault (build_mllt frames, s)

  -- `build_mllt(&file)?`
  abbrev pub table_of : String → Exec S Fault (Option (List ℕ))
  table_of file = map_err failed (I.read_frames file) >>= built

  abbrev pub write_table : String → I.Tag → Option (List ℕ) → Exec S Fault (Unit {0})
  write_table file tag none = pure tt
  write_table file tag (some t) =
      map_err failed (I.write_to_path (I.add_frame (mllt_frame t) tag) file)

  abbrev pub without_table : String → I.Tag → Option I.Frame → Exec S Fault (Unit {0})
  without_table file tag (some frame) = pure tt
  without_table file tag none = table_of file >>= write_table file tag

  unfoldable pub mlltify : String → Exec S Fault (Unit {0})
  unfolding mllt_frame build_mllt
  mlltify file =
      map_err failed (I.read_from_path file) >>= λ tag. without_table file tag (I.get "MLLT" tag)

  -- What the three calls on files keep. There is no loop that fuel is used for.
  module _ (P : S → Type 0) (reads : (p : String) (s : S) → P s → P (I.read_from_path p s).1)
      (scans : (p : String) (s : S) → P s → P (I.read_frames p s).1)
      (writes : (t : I.Tag) (p : String) (s : S) → P s → P (I.write_to_path t p s).1) where
    abbrev Kept : {A : Type 0} → Result Fault A × S → Type 0
    Kept = Ends (λ _ s. P s) (λ e s. P s × (e ≢ out_of_fuel))

    from_call : {A : Type 0} (r : Result Failure A × S) → P r.1 → Kept (converted failed r)
    from_call (ok a, s) h = returns a s h
    from_call (err e, s) h = fails _ s (h, λ e. cc)

    from_table :
        (r : Result MlltError (Option (List ℕ))) (s : S) → P s → Kept (converted fault (r, s))
    from_table (ok o) s h = returns o s h
    from_table (err incalculable_duration) s h = fails _ s (h, λ e. cc)
    from_table (err unexpected_underflow) s h = fails _ s (h, λ e. cc)
    from_table (err mllt_panicked) s h = fails _ s (h, λ e. cc)

    write_table-Kept :
        (p : String) (t : I.Tag) (table : Option (List ℕ)) (s : S)
        → P s
        → Kept (write_table p t table s)
    write_table-Kept p t none s h = returns tt s h
    write_table-Kept p t (some b) s h = from_call _ (writes _ p s h)

    without_table-Kept :
        (p : String) (t : I.Tag) (o : Option I.Frame) (s : S) → P s → Kept (without_table p t o s)
    without_table-Kept p t (some f) s h = returns tt s h
    without_table-Kept p t none s h =
        Ends-bind (write_table p t)
          (Ends-bind built (from_call (I.read_frames p s) (scans p s h))
            (λ fs s' h'. from_table (build_mllt fs) s' h') (λ _ _ h. h))
          (λ o s' h'. write_table-Kept p t o s' h') (λ _ _ h. h)

    pub mlltify-Kept : (p : String) (s : S) → P s → Kept (mlltify p s)
    unfolding mlltify
    mlltify-Kept p s h =
        Ends-bind _ (from_call (I.read_from_path p s) (reads p s h))
          (λ t s' h'. without_table-Kept p t (I.get "MLLT" t) s' h') (λ _ _ h. h)
