-- ===== src/Stream/Order/Invariant.antt =====
-- What holds of the goroutines of a streamed request (gateway/internal/http/handlers.go and
-- gateway/internal/grpc/client.go) between their steps.
use mathlib.Core.List.{map-append}
use vkr.Prelude.{
  ◌≡◌, ◌≢◌, refl, ap, ◌⊎◌, inl, inr, Bool, true, false, List, [], ◌∷◌, ◌++◌, map, append_assoc,
  append-nil,
}
use vkr.Prelude.Text.{Text}
use vkr.Stream.{
  Reader, sending, finished, Sender, not_started, forwarding, closing, gone, Receiver, opening,
  receiving, awaiting, closing_errs, closing_results, ended, holding, Main, draining, by_results,
  by_nil, by_error, State, start,
}

-- The receiver still takes results from the stream.
abbrev pub is_alive : {R : Type 0} → Receiver R → Bool
is_alive opening = true
is_alive receiving = true
is_alive (holding r) = true
is_alive awaiting = false
is_alive closing_errs = false
is_alive closing_results = false
is_alive ended = false

-- It has begun to close its channels.
abbrev pub is_leaving : {R : Type 0} → Receiver R → Bool
is_leaving closing_errs = true
is_leaving closing_results = true
is_leaving ended = true
is_leaving opening = false
is_leaving receiving = false
is_leaving (holding r) = false
is_leaving awaiting = false

abbrev pub held : {R : Type 0} → Receiver R → List R
held (holding r) = r ∷ []
held opening = []
held receiving = []
held awaiting = []
held closing_errs = []
held closing_results = []
held ended = []

abbrev pub is_active : Sender → Bool
is_active not_started = true
is_active forwarding = true
is_active closing = false
is_active gone = false

abbrev pub is_failed : Main → Bool
is_failed draining = false
is_failed by_results = false
is_failed by_nil = false
is_failed (by_error e) = true

abbrev pub is_empty : List Text → Bool
is_empty [] = true
is_empty (e ∷ es) = false

pub sending-inj : {C : Type 0} {xs ys : List C} → sending xs ≡ sending ys → xs ≡ ys
sending-inj e = cc

pub is_empty-append : (es : List Text) (e : Text) → is_empty (es ++ e ∷ []) ≡ false
is_empty-append [] e = refl
is_empty-append (x ∷ es) e = refl

pub map-move :
    {C R : Type 0} (f : C → R) (xs : List C) (c : C) (ys : List R)
    → map f (xs ++ c ∷ []) ++ ys ≡ map f xs ++ f c ∷ ys
map-move f xs c ys = rw (map-append f xs (c ∷ [])) (append_assoc (map f xs) (f c ∷ []) ys)

pub move_held :
    {R : Type 0} (ws rs : List R) (r : R) (rest : List R)
    → (ws ++ (rs ++ r ∷ [])) ++ rest ≡ (ws ++ (rs ++ [])) ++ r ∷ rest
move_held ws rs r rest = cc (
  append_assoc ws (rs ++ r ∷ []) rest,
  append_assoc rs (r ∷ []) rest,
  append-nil rs,
  append_assoc ws rs (r ∷ rest),
)

-- The receiver saw the end of the stream, so that nothing is missing unless the reader gave up.
abbrev pub Ended : {C R : Type 0} → List R → Bool → Reader C → Type 0
Ended rest half_closed reader = (half_closed ≡ true) × (reader ≡ finished → rest ≡ [])

pub unfinished :
    {C R : Type 0} {rest : List R} {half_closed : Bool} {r r' : Reader C} {X : Type 0}
    → r' ≢ finished
    → Ended rest half_closed r ⊎ X
    → Ended rest half_closed r' ⊎ X
unfinished n (inl h) = inl (h.0, λ d. absurd (n d))
unfinished n (inr x) = inr x

pub still_open :
    {C R : Type 0} {rest : List R} {half_closed : Bool} {r r' : Reader C} {X : Type 0}
    → half_closed ≢ true
    → Ended rest half_closed r ⊎ X
    → Ended rest half_closed r' ⊎ X
still_open n (inl h) = absurd (n h.0)
still_open n (inr x) = inr x

pub now_half :
    {C R : Type 0} {rest : List R} {half_closed : Bool} {r : Reader C} {X : Type 0}
    → Ended rest half_closed r ⊎ X
    → Ended rest true r ⊎ X
now_half (inl h) = inl (refl, h.1)
now_half (inr x) = inr x

pub undecided :
    {X Y Z : Type 0} {m : Main} → m ≡ draining → X ⊎ Y ⊎ (is_failed m ≡ true) → X ⊎ Y ⊎ Z
undecided d (inl x) = inl x
undecided d (inr (inl y)) = inr (inl y)
undecided d (inr (inr f)) = cc

module _ {C R : Type 0} (serve : C → R) (all : List C) where
  -- The results that the client was sent or is about to be.
  abbrev pub kept : State C R → List R
  kept s = s.written ++ (s.results ++ held s.receiver)

  -- `rest` are the results that are missing from `kept`; `later` those of them that are not in
  -- flight, and `beyond` those of the chunks that are not yet in the channel.
  pub record Inv (rest later beyond : List R) (s : State C R) : Type 0 where
    pub total : kept s ++ rest ≡ map serve all
    pub flight : is_alive s.receiver ≡ true → rest ≡ map serve s.in_flight ++ later
    pub queued :
        is_alive s.receiver ≡ true
        → is_active s.sender ≡ true
        → later ≡ map serve s.chunks ++ beyond
    pub unread : (cs : List C) → s.reader ≡ sending cs → beyond ≡ map serve cs
    pub read : s.reader ≡ finished → beyond ≡ []
    pub closed :
        is_alive s.receiver ≡ true → s.half_closed ≡ true → s.reader ≡ finished → later ≡ []
    pub waited : s.receiver ≡ awaiting → Ended rest s.half_closed s.reader
    pub complete :
        is_leaving s.receiver ≡ true
        → Ended rest s.half_closed s.reader ⊎ (is_empty s.errs ≡ false) ⊎ (is_failed s.main ≡ true)
    pub stopped : (cs : List C) → s.reader ≡ sending cs → s.chunks_closed ≡ false
    pub half : s.half_closed ≡ true → s.chunks_closed ≡ true
    pub active : is_active s.sender ≡ true → s.half_closed ≡ false
    pub first : s.receiver ≡ opening → s.sender ≡ not_started
    pub over : s.results_closed ≡ true → s.receiver ≡ ended
    pub drained : s.main ≡ by_results → (s.results ≡ []) × (s.receiver ≡ ended)

  pub start-Inv : Inv (map serve all) (map serve all) (map serve all) (start all)
  start-Inv = record {
    total = refl;
    flight = λ a. refl;
    queued = λ a b. refl;
    unread = λ cs e. ap (map serve) (sending-inj e);
    read = λ e. cc;
    closed = λ a b c. cc;
    waited = λ a. cc;
    complete = λ a. cc;
    stopped = λ cs e. refl;
    half = λ a. cc;
    active = λ a. refl;
    first = λ a. refl;
    over = λ a. cc;
    drained = λ a. cc;
  }

  -- The invariant, with some lists.
  abbrev pub Holds : State C R → Type 0
  Holds s = (rest : List R) × (later : List R) × (beyond : List R) × Inv rest later beyond s
