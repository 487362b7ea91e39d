-- ===== src/Mllt/Tagging/Once.antt =====
-- What mlltify of src/helpers/mllt.rs does to the files, once and once more.
use vorleser_server.Prelude.{
  ℕ, String, string_eq, ◌==◌, ◌≡◌, refl, sym, ◌∙◌, ◌≢◌, subst, Bool, false, Option, none, some,
  List, if◌then◌else◌, All, Result, ok, err,
}
use vorleser_server.Errors.{Fault, failed}
use vorleser_server.Exec.{converted}
use vorleser_server.Exec.Ends.{
  Ends-ok, Ends, returns, fails, Ends-bind, Ends-converted, Ends-mono, Ends-state,
}
use vorleser_server.Mllt.{Mp3Frame, MlltError, build_mllt}
use vorleser_server.Mllt.Need.{HasDuration, SameRate, build_mllt_iff}
use vorleser_server.Mllt.Tagging.{
  Id3, fault, mllt_frame, built, table_of, write_table, without_table, mlltify,
}

module _ {S : Type 0} (I : Id3 S) where
  -- What is in the files: the tags and the frames.
  pub record Music : Type 0 where
    pub tags : String → Option I.Tag
    pub frames : String → Option (List Mp3Frame)

  abbrev pub put : String → I.Tag → Music → Music
  put p t m = record m { tags = λ q. if q == p then some t else m.tags q }

  -- Nothing but the file at the path has changed.
  abbrev pub Elsewhere : String → Music → Music → Type 0
  Elsewhere p m m' =
      (q : String) → (q == p) ≡ false → (m'.tags q ≡ m.tags q) × (m'.frames q ≡ m.frames q)

  -- What the crates document: reading changes nothing, writing a tag replaces the tag of that
  -- file and leaves its frames, and a frame that has been added is found by its identifier.
  pub record IsTagging : Type 0 where
    pub view : S → Music
    pub read_law :
        (p : String) (s : S)
        → Ends
            (λ t s'. (view s' ≡ view s) × ((view s).tags p ≡ some t))
            (λ _ s'. view s' ≡ view s)
            (I.read_from_path p s)
    pub frames_law :
        (p : String) (s : S)
        → Ends
            (λ fs s'. (view s' ≡ view s) × ((view s).frames p ≡ some fs))
            (λ _ s'. view s' ≡ view s)
            (I.read_frames p s)
    pub write_law :
        (t : I.Tag) (p : String) (s : S)
        → Ends
            (λ _ s'. view s' ≡ put p t (view s))
            (λ _ s'. Elsewhere p (view s) (view s'))
            (I.write_to_path t p s)
    pub id_of : I.Frame → String
    pub id_law : (n : String) (b : List ℕ) → id_of (I.with_content n b) ≡ n
    pub tag_flag_law : (b : Bool) (f : I.Frame) → id_of (I.set_tag_alter_preservation b f) ≡ id_of f
    pub file_flag_law :
        (b : Bool) (f : I.Frame) → id_of (I.set_file_alter_preservation b f) ≡ id_of f
    pub get_law : (f : I.Frame) (t : I.Tag) → I.get (id_of f) (I.add_frame f t) ≢ none

  -- How mlltify ends without an error: the tag had a table; the bit rate is constant; or a table has been
  -- added to the tag.
  pub data Tagged (p : String) (m : Music) : Music → Type 0 where
    had_table : (t : I.Tag) → m.tags p ≡ some t → I.get "MLLT" t ≢ none → Tagged p m m
    needless :
        (fs : List Mp3Frame)
        → m.frames p ≡ some fs
        → All HasDuration fs × SameRate none fs
        → Tagged p m m
    tagged :
        (t : I.Tag) (fs : List Mp3Frame) (b : List ℕ)
        → m.tags p ≡ some t
        → I.get "MLLT" t ≡ none
        → m.frames p ≡ some fs
        → build_mllt fs ≡ ok (some b)
        → Tagged p m (put p (I.add_frame (mllt_frame I b) t) m)

  -- With an error or a panic: nothing has changed, or writing a table that was due has failed.
  pub data Failed (p : String) (m : Music) : Music → Type 0 where
    untouched : Failed p m m
    unwritten :
        (t : I.Tag) (fs : List Mp3Frame) (b : List ℕ) (m' : Music)
        → m.tags p ≡ some t
        → I.get "MLLT" t ≡ none
        → m.frames p ≡ some fs
        → build_mllt fs ≡ ok (some b)
        → Elsewhere p m m'
        → Failed p m m'

  module _ (L : IsTagging) where
    open L use {view}

    abbrev Tagging : String → Music → Result Fault (Unit {0}) × S → Type 0
    Tagging p m = Ends (λ _ s. Tagged p m (view s)) (λ _ s. Failed p m (view s))

    -- The frames that a table was made of, or found to need none.
    abbrev MadeOf : String → Music → Option (List ℕ) → S → Type 0
    MadeOf p m o s =
        (view s ≡ m) × (fs : List Mp3Frame) × (m.frames p ≡ some fs) × (build_mllt fs ≡ ok o)

    built_lem :
        (p : String) (fs : List Mp3Frame) (m : Music) (s : S)
        → view s ≡ m
        → m.frames p ≡ some fs
        → (r : Result MlltError (Option (List ℕ))) → build_mllt fs ≡ r
        → Ends (MadeOf p m) (λ _ s. view s ≡ m) (converted fault (r, s))
    built_lem p fs m s v f (ok o) b = returns o s (v, fs, f, b)
    built_lem p fs m s v f (err e) b = fails _ s v

    table_of_lem :
        (p : String) (m : Music) (s : S)
        → view s ≡ m
        → Ends (MadeOf p m) (λ _ s. view s ≡ m) (table_of I p s)
    table_of_lem p m s v =
        Ends-bind (built I) (Ends-converted failed (L.frames_law p s) (λ _ _ h. h ∙ v))
          (λ fs s' (w, f). built_lem p fs m s' (w ∙ v) (rw v at f) (build_mllt fs) refl)
          (λ _ _ w. w)

    write_lem :
        (p : String) (t : I.Tag) (m : Music)
        → m.tags p ≡ some t
        → I.get "MLLT" t ≡ none
        → (o : Option (List ℕ)) (s : S) → MadeOf p m o s
        → Tagging p m (write_table I p t o s)
    write_lem p t m a g none s (v, fs, f, b) =
        returns _ s (rw v (needless fs f ((build_mllt_iff fs).0 b)))
    write_lem p t m a g (some x) s (v, fs, f, b) =
        Ends-mono
          (Ends-converted {F' = λ _ s'. Elsewhere p (view s) (view s')} failed
            (L.write_law (I.add_frame (mllt_frame I x) t) p s) (λ _ _ h. h))
          (λ _ s' w. rw (w, v) (tagged t fs x a g f b))
          (λ _ s' w. unwritten t fs x (view s') a g f b (rw v at w))

    without_table_lem :
        (p : String) (t : I.Tag) (m : Music) (s : S)
        → view s ≡ m
        → m.tags p ≡ some t
        → (o : Option I.Frame) → I.get "MLLT" t ≡ o
        → Tagging p m (without_table I p t o s)
    without_table_lem p t m s v a (some f) g = returns tt s (rw v (had_table t a (λ e. cc)))
    without_table_lem p t m s v a none g =
        Ends-bind (write_table I p t) (table_of_lem p m s v) (write_lem p t m a g)
          (λ _ _ w. rw w untouched)

    -- If mlltify ends without an error, then the tag already had a table and nothing has changed, or
    -- all frames have a duration and the same bit rate and nothing has changed, or the tag now has
    -- the table that build_mllt makes of the frames. If it ends with an error or a panic, nothing
    -- has changed, except that writing a table that was due may have failed, and then no other
    -- file has changed.
    pub mlltify_outcome : (p : String) (s : S) → Tagging p (view s) (mlltify I p s)
    unfolding mlltify
    mlltify_outcome p s =
        Ends-bind _
          (Ends-converted {F' = λ _ s'. view s' ≡ view s} failed (L.read_law p s) (λ _ _ v. v))
          (λ t s' (v, a). without_table_lem p t (view s) s' v a (I.get "MLLT" t) refl)
          (λ _ _ v. rw v untouched)

    -- A file that mlltify has gone through without an error needs no table any more.
    abbrev Settled : String → Music → Type 0
    Settled p m =
        (t : I.Tag) (fs : List Mp3Frame) (b : List ℕ)
        → m.tags p ≡ some t
        → I.get "MLLT" t ≡ none
        → m.frames p ≡ some fs
        → build_mllt fs ≢ ok (some b)

    mllt_frame-found :
        (b : List ℕ) (t : I.Tag) → I.get "MLLT" (I.add_frame (mllt_frame I b) t) ≢ none
    unfolding mllt_frame
    mllt_frame-found b t e =
        L.get_law (mllt_frame I b) t
          (subst (λ n. I.get n (I.add_frame (mllt_frame I b) t) ≡ none) (sym named) e)
      where
        named : L.id_of (mllt_frame I b) ≡ "MLLT"
        named = L.file_flag_law false _ ∙ L.tag_flag_law false _ ∙ L.id_law "MLLT" b

    Tagged-Settled : (p : String) (m m' : Music) → Tagged p m m' → Settled p m'
    Tagged-Settled p m m' (had_table t a g) = λ t' fs b a' g' f e. g cc
    Tagged-Settled p m m' (needless fs f c) = λ t' fs' b a' g' f' e. cc ((build_mllt_iff fs).1 c)
    Tagged-Settled p m m' (tagged t fs b a g f e) = λ t' fs' b' a' g' f' e'.
        let found : some (I.add_frame (mllt_frame I b) t) ≡ some t' =
          rw ((string_eq.same_iff p p).0 refl) at a' in
        mllt_frame-found b t cc

    Settled-same : (p : String) (m m' : Music) → Settled p m → Tagged p m m' → m' ≡ m
    Settled-same p m m' h (had_table t a g) = refl
    Settled-same p m m' h (needless fs f c) = refl
    Settled-same p m m' h (tagged t fs b a g f e) = absurd (h t fs b a g f e)

    Failed-same : (p : String) (m m' : Music) → Settled p m → Failed p m m' → m' ≡ m
    Failed-same p m m' h untouched = refl
    Failed-same p m m' h (unwritten t fs b _ a g f e _) = absurd (h t fs b a g f e)

    -- After mlltify has ended without an error for a file, calling it again changes no tag and no
    -- frame of any file, however the second call ends.
    pub mlltify-mlltify :
        (p : String) (s s' : S) → mlltify I p s ≡ (ok tt, s') → view (mlltify I p s').1 ≡ view s'
    mlltify-mlltify p s s' e =
        Ends-state (λ u. view u ≡ view s') (mlltify_outcome p s')
          (λ _ _ h. Settled-same p _ _ settled h) (λ _ _ h. Failed-same p _ _ settled h)
      where
        settled : Settled p (view s')
        settled =
            Tagged-Settled p (view s) (view s')
              (Ends-ok (subst (Tagging p (view s)) e (mlltify_outcome p s)))
