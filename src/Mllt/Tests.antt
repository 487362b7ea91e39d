-- ===== src/Mllt/Tests.antt =====
-- The theorems on src/helpers/mllt.rs at concrete frames.
use vorleser_server.Prelude.{arith, ℕ, ◌≡◌, refl, none, some, [], ◌∷◌, All, ok}
use vorleser_server.Mllt.{Mp3Frame, Running, reference, build_mllt, gather}
use vorleser_server.Mllt.Packing.{Told, reference-Told}
use vorleser_server.Mllt.Need.{SameRate, HasDuration, build_mllt_iff}

abbrev frame : ℕ → ℕ → Mp3Frame
frame size bitrate = record { size = size; bitrate = bitrate; duration = some 26122448 }

reference-Told_example :
    (entry : ℕ) × (r' : Running) × (reference 2 400 52
        (frame 200 128 ∷ frame 417 160 ∷ [])
        (record { duration = 0; estimated = 0 })
      ≡ ok (entry, r'))
    × Told 400 52
        (frame 200 128 ∷ frame 417 160 ∷ [])
        (record { duration = 0; estimated = 0 })
        r'
        entry
reference-Told_example =
    reference-Told 2 400 52 (frame 200 128 ∷ frame 417 160 ∷ [])
      (record { duration = 0; estimated = 0 }) (omega arith) (omega arith) (omega arith)
      (omega arith)

build_mllt_iff_example :
    All HasDuration (frame 200 128 ∷ frame 201 128 ∷ [])
    × SameRate none (frame 200 128 ∷ frame 201 128 ∷ [])
unfolding build_mllt gather
build_mllt_iff_example = (build_mllt_iff (frame 200 128 ∷ frame 201 128 ∷ [])).0 refl
