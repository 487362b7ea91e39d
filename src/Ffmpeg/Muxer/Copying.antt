-- ===== src/Ffmpeg/Muxer/Copying.antt =====
-- The loop of merge_files in src/worker/muxer.rs that copies the packets of one file.
use std.Path.{fun_ext}
use vorleser_server.Prelude.{
  ℕ, zero, suc, ◌<◌, ◌≡◌, refl, ap, sym, subst, ◌∙◌, Option, none, some, List, [], ◌∷◌, ◌++◌, map,
  length, ◌==◌, nat_eq, Bool-cases, inl, inr, append-nil, append_assoc, arith,
}
use vorleser_server.Prelude.Int.{ℤ, int_eq, add_i64}
use vorleser_server.Exec.{pure, continue}
use vorleser_server.Exec.Ends.{Ends, returns, fails, Ends-bind, Ends-mono}
use vorleser_server.Ffmpeg.{Ffmpeg, AvStream, AvPacket}
use vorleser_server.Ffmpeg.MediaFile.{MediaFile, read_packet}
use vorleser_server.Ffmpeg.Util.{check_av_result}
use vorleser_server.Ffmpeg.Reading.{Stops, Took, read_packet_lem, left_to_read, shorter}
use vorleser_server.Ffmpeg.Muxer.{
  NewMediaFile, moved, write_frame, copy_packet, copy_if, copy_packets,
}
use vorleser_server.Ffmpeg.Frames.{
  Files, updated, Writes, wrote, unwritten, IsFramed, on_stream, playing_time_from, retimed,
  shifted, Written,
}

updated-updated :
    (c : ℕ) (ps : List AvPacket) (frames : ℕ → List AvPacket)
    → updated c [] (updated c ps frames) ≡ updated c [] frames
updated-updated c ps frames = fun_ext (λ d. ground arith)

updated_same : (c : ℕ) (frames : ℕ → List AvPacket) → frames c ≡ [] → updated c [] frames ≡ frames
updated_same c frames h = fun_ext (λ d. elim (Bool-cases (d == c)) [
  | inl e ↦ rw e (sym h ∙ ap frames (sym ((nat_eq.same_iff d c).1 e)))
  | inr e ↦ rw e refl
])

module _ {S : Type 0} (F : Ffmpeg S) (L : IsFramed F) where
  open L use {view}

  written_ends :
      (c : ℕ) (p : AvPacket) (v : Files) {r : ℤ × S}
      → Writes view c p v r
      → Ends
          (λ _ s. view s ≡ record v { written = v.written ++ (c, p) ∷ [] })
          Stops
          (let (code, s') = r in continue (λ _. pure tt) (check_av_result F code s'))
  written_ends c p v (wrote code s e) = returns tt s e
  written_ends c p v (unwritten n s) = fails _ s tt

  module _ (out : NewMediaFile) (best : AvStream) (offset : ℤ) where
    copy_packet_ends :
        (p : AvPacket) (s : S)
        → Ends
            (λ _ s'.
              view s'
              ≡ record (view s) { written = (view s).written ++ shifted out.ctx offset p ∷ [] })
            Stops
            (copy_packet F out offset p s)
    unfolding write_frame
    copy_packet_ends p s =
        Ends-bind _
          (written_ends out.ctx (retimed offset p) (view s)
            (L.write_law out.ctx (retimed offset p) s))
          (λ _ s' e.
            returns tt (F.av_free_packet (moved offset p) s') (L.free_law (moved offset p) s' ∙ e))
          (λ _ _ e. e)

    -- What has been done of the frames `ps` of a file that had played for `t`.
    abbrev Copied : ℕ → List AvPacket → ℤ → Files → ℤ → S → Type 0
    Copied c ps t v t' s =
        (t' ≡ playing_time_from t (on_stream best.index ps))
        × (view s ≡ record v {
          frames = updated c [] v.frames;
          written = v.written ++ map (shifted out.ctx offset) (on_stream best.index ps);
        })

    -- One round.
    abbrev Round : ℕ → Files → ℤ → Option ℤ → S → Type 0
    Round c v t none s = (v.frames c ≡ []) × (view s ≡ v)
    Round c v t (some t') s =
        (p : AvPacket) × (ps : List AvPacket) × (v.frames c ≡ p ∷ ps)
        × (t' ≡ playing_time_from t (on_stream best.index (p ∷ [])))
        × (view s ≡ record v {
          frames = updated c ps v.frames;
          written = v.written ++ map (shifted out.ctx offset) (on_stream best.index (p ∷ []));
        })

    copied_if :
        (c : ℕ) (v : Files) (t : ℤ) (o : Option AvPacket) (s : S)
        → Took F L c v o s
        → Ends (Round c v t) Stops (copy_if F out best offset t o s)
    unfolding copy_if
    copied_if c v t none s took = returns none s took
    copied_if c v t (some p) s (ps, e, w) = elim (Bool-cases (p.stream_index == best.index)) [
      | inl same ↦ rw same (
          Ends-bind _ (copy_packet_ends p s)
            (λ _ s' e'. returns (some (add_i64 t p.duration)) s' (
              p,
              ps,
              e,
              rw same refl,
              rw same (
                  e'
                  ∙ ap
                      (λ (u : Files). record u {
                        written = u.written ++ shifted out.ctx offset p ∷ [];
                      })
                      w),
            ))
            (λ _ _ f. f))
      | inr other ↦
          rw other (returns (some t) s (p, ps, e, rw other refl, rw (other, append-nil) w))
    ]

    round_lem :
        (f : MediaFile) (t : ℤ) (s : S)
        → Ends
            (Round f.ctx (view s) t)
            Stops
            (continue (copy_if F out best offset t) (read_packet F f s))
    round_lem f t s =
        Ends-bind (copy_if F out best offset t) (read_packet_lem F L f s)
          (copied_if f.ctx (view s) t) (λ _ _ e. e)

    on_stream-cons :
        (p : AvPacket) (ps : List AvPacket)
        → on_stream best.index (p ∷ ps) ≡ on_stream best.index (p ∷ []) ++ on_stream best.index ps
    on_stream-cons p ps = elim (Bool-cases (p.stream_index == best.index)) [
      | inl e ↦ rw e refl
      | inr e ↦ rw e refl
    ]

    playing_time_from-cons :
        (t : ℤ) (p : AvPacket) (ps : List AvPacket)
        → playing_time_from
            (playing_time_from t (on_stream best.index (p ∷ [])))
            (on_stream best.index ps)
          ≡ playing_time_from t (on_stream best.index (p ∷ ps))
    playing_time_from-cons t p ps = elim (Bool-cases (p.stream_index == best.index)) [
      | inl e ↦ rw e refl
      | inr e ↦ rw e refl
    ]

    written-cons :
        (w : List Written) (p : AvPacket) (ps : List AvPacket)
        → (w ++ map (shifted out.ctx offset) (on_stream best.index (p ∷ [])))
            ++ map (shifted out.ctx offset) (on_stream best.index ps)
          ≡ w ++ map (shifted out.ctx offset) (on_stream best.index (p ∷ ps))
    written-cons w p ps = elim (Bool-cases (p.stream_index == best.index)) [
      | inl e ↦ rw e (append_assoc w (shifted out.ctx offset p ∷ []) _)
      | inr e ↦ rw (e, append-nil) refl
    ]

    -- A round and what is done after it.
    round-Copied :
        (c : ℕ) (v : Files) (p : AvPacket) (ps : List AvPacket) (t t' t'' : ℤ) (s s' : S)
        → t' ≡ playing_time_from t (on_stream best.index (p ∷ []))
        → view s ≡ record v {
          frames = updated c ps v.frames;
          written = v.written ++ map (shifted out.ctx offset) (on_stream best.index (p ∷ []));
        }
        → Copied c ps t' (view s) t'' s'
        → Copied c (p ∷ ps) t v t'' s'
    round-Copied c v p ps t t' t'' s s' e w (e', w') = (
      e'
          ∙ ap (λ x. playing_time_from x (on_stream best.index ps)) e
          ∙ playing_time_from-cons t p ps,
      w'
          ∙ ap
              (λ (u : Files). record u {
                frames = updated c [] u.frames;
                written = u.written ++ map (shifted out.ctx offset) (on_stream best.index ps);
              })
              w
          ∙ (λ i. record v {
            frames = updated-updated c ps v.frames i;
            written = written-cons v.written p ps i;
          }),
    )

    nothing-Copied :
        (c : ℕ) (v : Files) (ps : List AvPacket) (t : ℤ) (s : S)
        → v.frames c ≡ ps
        → v.frames c ≡ []
        → view s ≡ v
        → Copied c ps t v t s
    nothing-Copied c v ps t s e n w =
        subst (λ (ps : List AvPacket). Copied c ps t v t s) (sym n ∙ e)
          (
            refl,
            w ∙ (λ i. record v {
              frames = sym (updated_same c v.frames n) i;
              written = sym (append-nil v.written) i;
            }),
          )

    pub copy_packets_lem :
        (fuel : ℕ) (f : MediaFile) (ps : List AvPacket) (t : ℤ) (s : S)
        → (view s).frames f.ctx ≡ ps
        → length ps < fuel
        → Ends (Copied f.ctx ps t (view s)) Stops (copy_packets F fuel out f best offset t s)
    unfolding copy_packets
    copy_packets_lem zero f ps t s e h = absurd (omega arith)
    copy_packets_lem (suc fuel) f ps t s e h =
        Ends-bind _ (round_lem f t s)
          (elim [
            | none ↦ λ s' (n, w). returns t s' (nothing-Copied f.ctx (view s) ps t s' e n w)
            | some t' ↦ λ s' (p, ps', n, et, w).
                Ends-mono
                  (copy_packets_lem fuel f ps' t' s' (left_to_read F L f.ctx (view s) _ ps' s' w)
                    (shorter F L p ps' fuel (sym e ∙ n) h))
                  (λ t'' s'' copied.
                    subst (λ (l : List AvPacket). Copied f.ctx l t (view s) t'' s'')
                      (sym (sym e ∙ n))
                      (round-Copied f.ctx (view s) p ps' t t' t'' s' s'' et w copied))
                  (λ _ _ e. e)
          ])
          (λ _ _ e. e)
