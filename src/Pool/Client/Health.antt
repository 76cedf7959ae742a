-- ===== src/Pool/Client/Health.antt =====
-- What `HealthCheck` of gateway/internal/grpc/client.go finds.
use vkr.Prelude.{
  ◌≡◌, refl, ap, sym, ◌∙◌, Bool, true, false, Option, none, some, List, [], ◌∷◌, map, All, arith,
  if◌then◌else◌, Bool-cases, inl, inr,
}
use vkr.Prelude.Text.{
  Text, eq_text, eq_text_sound, eq_text_complete, eq_text_refl, ltb_text, AreDistinct,
}
use vkr.Pool.{ProcessorClient}
use vkr.Pool.Client.{Transport, put, healthy, probe}

-- `m[k]`
abbrev pub entry : Text → List (Text × Bool) → Option Bool
entry k [] = none
entry k ((j, w) ∷ m) = if eq_text k j then some w else entry k m

module _ {F32 F64 : Type 0} (t : Transport F32 F64) where
  pub entry-put :
      (k a : Text) (b : Bool) (m : List (Text × Bool))
      → entry k (put t a b m) ≡ (if eq_text k a then some b else entry k m)
  unfolding put
  entry-put k a b [] = refl
  entry-put k a b ((j, w) ∷ m) = elim (Bool-cases (eq_text j a)) [
    | inl same ↦
        let here : eq_text k j ≡ eq_text k a = ap (eq_text k) (eq_text_sound j a same) in
        elim (Bool-cases (eq_text k a)) [
          | inl hit ↦ rw (put, same, hit) refl
          | inr miss ↦ rw (put, same, here, miss) refl
        ]
    | inr other ↦ elim (Bool-cases (ltb_text a j)) [
      | inl below ↦ rw (put, other, below) refl
      | inr above ↦
          let ih = entry-put k a b m in
          elim (Bool-cases (eq_text k a)) [
            | inr miss ↦ rw (put, other, above) (ground (arith, ih, miss))
            | inl hit ↦
                let there : eq_text k j ≡ false = not_there hit other in
                rw (put, other, above, there, hit) (rw hit at ih)
          ]
    ]
  ]
    where
      not_there : eq_text k a ≡ true → eq_text j a ≡ false → eq_text k j ≡ false
      not_there hit other = elim (Bool-cases (eq_text k j)) [
        | inr miss ↦ miss
        | inl same ↦ absurd (
            cc (other, eq_text_complete j a (sym (eq_text_sound k j same) ∙ eq_text_sound k a hit)))
      ]

  -- An address that no client has.
  entry-probe :
      (k : Text) (cs : List ProcessorClient) (m : List (Text × Bool))
      → All (λ a. eq_text k a ≡ false) (map (λ c. c.addr) cs)
      → entry k (probe t cs m) ≡ entry k m
  unfolding probe
  entry-probe k [] m others = refl
  entry-probe k (c ∷ cs) m (other, others) =
      let after = entry-put k c.addr (healthy t c) m in
      entry-probe k cs (put t c.addr (healthy t c) m) others ∙ rw other at after

  -- Where no two processors have the same address, `HealthCheck` says of each whether it answers.
  pub probe_lem :
      (cs : List ProcessorClient) (m : List (Text × Bool))
      → AreDistinct (map (λ c. c.addr) cs)
      → All (λ c. entry c.addr (probe t cs m) ≡ some (healthy t c)) cs
  unfolding probe
  probe_lem [] m distinct = tt
  probe_lem (c ∷ cs) m (others, distinct) =
      let after = entry-put c.addr c.addr (healthy t c) m in
      let same = eq_text_refl c.addr in
      (
        entry-probe c.addr cs (put t c.addr (healthy t c) m) others ∙ rw same at after,
        probe_lem cs (put t c.addr (healthy t c) m) distinct,
      )
