-- ===== src/Http/Stream/Frames.antt =====
-- The frames that a streamed body is cut into.
use vkr.Prelude.{
  ℕ, zero, suc, ◌≤◌, ◌<◌, ◌≡◌, refl, ap, ◌∙◌, false, List, [], ◌∷◌, ◌++◌, arith, length, take, drop,
  length-append, ltb, All, append_assoc,
}
use vkr.Prelude.Int.{pos}
use vkr.Prelude.Text.{Text}
use vkr.Http.Stream.{frames, buffer_size, cut, read_frames}

-- The bytes of some frames, one after the other.
abbrev pub joined : List Text → Text
joined [] = []
joined (frame ∷ more) = frame ++ joined more

take-append : (xs ys : Text) → take (length xs) (xs ++ ys) ≡ xs
take-append [] ys = refl
take-append (x ∷ xs) ys = ap (λ t. x ∷ t) (take-append xs ys)

drop-append : (xs ys : Text) → drop (length xs) (xs ++ ys) ≡ ys
drop-append [] ys = refl
drop-append (x ∷ xs) ys = drop-append xs ys

-- One round on a body that starts with a whole frame.
cut-frame :
    (fuel size : ℕ) (frame body : Text)
    → length frame ≡ size
    → cut (suc fuel) size (frame ++ body) ≡ frame ∷ cut fuel size body
unfolding cut
cut-frame fuel size frame body e =
    let long : ltb (length (frame ++ body)) (length frame) ≡ false =
      ground (arith, length-append frame body) in
    rw (← e, long, take-append frame body, drop-append frame body) refl

cut-joined :
    (fuel size : ℕ) (fs : List Text) (rest : Text)
    → 1 ≤ size
    → All (λ frame. length frame ≡ size) fs
    → length rest < size
    → length (joined fs ++ rest) ≤ fuel
    → cut fuel size (joined fs ++ rest) ≡ fs
unfolding cut
cut-joined zero size [] rest some_size sized short enough = refl
cut-joined (suc fuel) size [] rest some_size sized short enough = ground arith
cut-joined zero size (frame ∷ fs) rest some_size (e, sized) short enough =
    absurd (omega (arith, length-append (frame ++ joined fs) rest, length-append frame (joined fs)))
cut-joined (suc fuel) size (frame ∷ fs) rest some_size (e, sized) short enough =
    let whole = length-append (frame ++ joined fs) rest in
    let first = length-append frame (joined fs) in
    let later = length-append (joined fs) rest in
    ap (cut (suc fuel) size) (append_assoc frame (joined fs) rest)
    ∙ cut-frame fuel size frame (joined fs ++ rest) e
    ∙ ap (λ t. frame ∷ t)
        (cut-joined fuel size fs rest some_size sized short (omega (arith, whole, first, later)))

-- The reading loop of `HandleProcessStream` sends every whole frame of the body, in order and with its
-- own bytes, and drops an incomplete one at the end, if the size of a frame is at least 1 and at most
-- the buffer's 921600 bytes.
pub read_frames-joined :
    (size : ℕ) (fs : List Text) (rest : Text)
    → 1 ≤ size
    → size ≤ buffer_size
    → All (λ frame. length frame ≡ size) fs
    → length rest < size
    → read_frames (pos size) (joined fs ++ rest) ≡ frames fs
unfolding read_frames
read_frames-joined zero fs rest some_size fits sized short = elim some_size [ ]
read_frames-joined (suc n) fs rest some_size fits sized short =
    let inside : ltb buffer_size (suc n) ≡ false = ground arith in
    rw inside (
      ap frames (
        cut-joined (length (joined fs ++ rest)) (suc n) fs rest some_size sized short
          (omega arith)))
