-- ===== src/Ctcp/Handshake.antt =====
-- ctcp.hh, lines 119-185: the handshake, which measures a round-trip time. The part that waits for a
-- sender whose address is not known is left out, and so is what is printed.
use copa_new.Prelude.{
  ℕ, ◌+◌, ◌≤◌, ◌≡◌, ◌⊎◌, refl, sym, ap, subst, ◌∙◌, List, [], ◌∷◌, Bool, true, false, ◌&&◌, not,
  Option, none, some, if◌then◌else◌, Bool-cases, inl, inr, arith,
}
use copa_new.Prelude.Int.{negsuc, eqb_ℤ}
use copa_new.Double.{Double, IsNum, ◌⊖◌, ◌<?◌, ◌≡?◌, lit}
use copa_new.Copa.Frame.{OnSome, if_elim}
use copa_new.Ctcp.{Controller, Header, Reply, silent, heard}

-- A pass of the loop: the clock at its start, and the reply with the clock behind it.
pub record Pass (W : Type 0) : Type 0 where
  pub now : W
  pub reply : Reply W

-- `sends` counts the packets of the handshake.
pub record Shake (W : Type 0) : Type 0 where
  pub last_send_time : W
  pub multi_send : Bool
  pub sends : ℕ

module _ {W : Type 0} ⦃d : Double W⦄ where
  -- -1e9.
  abbrev pub never : W
  never = d.of_int (negsuc 999999999)

  abbrev pub new_shake : Shake W
  new_shake = record { last_send_time = never; multi_send = false; sends = 0 }

  unfoldable pub knock : Shake W → W → Shake W
  knock s now =
      if s.last_send_time <? now ⊖ lit 200 1
      then record {
        last_send_time = now;
        multi_send = if s.last_send_time ≡? never then s.multi_send else true;
        sends = s.sends + 1;
      }
      else s

  abbrev pub is_welcome : Header W → Bool
  is_welcome h =
      eqb_ℤ h.seq_num (negsuc 0)
      && eqb_ℤ h.flow_id (negsuc 0)
      && (h.sender_timestamp ≡? d.of_int (negsuc 0))
      && eqb_ℤ h.src_id (negsuc 0)

  -- A reply that is not the handshake's is passed over.
  unfoldable pub answer_to : Shake W → Reply W → Option (Shake W × W) → Option (Shake W × W)
  answer_to s (silent now) rest = rest
  answer_to s (heard h now) rest = if is_welcome h then some (s, now ⊖ s.last_send_time) else rest

  -- The loop, as far as there are inputs; `some` has the state and the round-trip time.
  unfoldable pub shake : Shake W → List (Pass W) → Option (Shake W × W)
  shake s [] = none
  shake s (p ∷ ps) = answer_to (knock s p.now) p.reply (shake (knock s p.now) ps)

module _ {C W : Type 0} ⦃d : Double W⦄ ⦃k : Controller C W⦄ where
  unfoldable pub shaken : C → Option (Shake W × W) → Option C
  shaken c none = none
  shaken c (some (s, rtt)) = some (if not s.multi_send then k.set_min_rtt c rtt else c)

  -- `none` if the handshake does not end with these inputs.
  abbrev pub tcp_handshake : C → List (Pass W) → Option C
  tcp_handshake c ps = shaken c (shake new_shake ps)

module _ {W : Type 0} ⦃d : Double W⦄ where
  -- The clock's readings are no -1e9.
  abbrev pub AreReadings : List (Pass W) → Type 0
  AreReadings [] = Unit
  AreReadings (p ∷ ps) = ((p.now ≡? never) ≡ false) × AreReadings ps

  -- Nothing was sent yet; or one packet at a reading; or several, and the flag is set.
  abbrev IsHonest : Shake W → Type 0
  IsHonest s =
      (s ≡ new_shake)
      ⊎ (((s.last_send_time ≡? never) ≡ false)
          × (((s.sends ≡ 1) × (s.multi_send ≡ false)) ⊎ ((2 ≤ s.sends) × (s.multi_send ≡ true))))

  knock-IsHonest :
      (s : Shake W) (now : W)
      → IsNum (never {W = W})
      → (now ≡? never) ≡ false
      → IsHonest s
      → IsHonest (knock s now)
  unfolding knock
  knock-IsHonest s now n t h =
      if_elim IsHonest (s.last_send_time <? now ⊖ lit 200 1)
        (elim h [
          | inl e ↦ inr (
            t,
            inl (
              ap (λ x. x.sends + 1) e,
              rw (ap (λ x. x.last_send_time) e, n) (ap (λ x. x.multi_send) e),
            ),
          )
          | inr x ↦ inr (
            t,
            inr (elim x.1 [ inl y ↦ omega (arith, y.0) | inr y ↦ omega (arith, y.0) ], rw x.0 refl),
          )
        ])
        h

  answer_to-lem :
      (s : Shake W) (r : Reply W) (rest : Option (Shake W × W))
      → IsHonest s
      → OnSome (λ x. IsHonest x.0) rest
      → OnSome (λ x. IsHonest x.0) (answer_to s r rest)
  unfolding answer_to
  answer_to-lem s (silent now) rest h k = k
  answer_to-lem s (heard x now) rest h k = if_elim (OnSome (λ x. IsHonest x.0)) (is_welcome x) h k

  shake-IsHonest :
      (s : Shake W) (ps : List (Pass W))
      → IsNum (never {W = W})
      → AreReadings ps
      → IsHonest s
      → OnSome (λ x. IsHonest x.0) (shake s ps)
  unfolding shake
  shake-IsHonest s [] n r h = tt
  shake-IsHonest s (p ∷ ps) n r h =
      let h' = knock-IsHonest s p.now n r.0 h in
      answer_to-lem (knock s p.now) p.reply (shake (knock s p.now) ps) h'
        (shake-IsHonest (knock s p.now) ps n r.1 h')

  -- What the flag tells of the number of packets.
  one_sent : (s : Shake W) → IsHonest s → s.multi_send ≡ false → s.sends ≤ 1
  one_sent s h e = elim h [
    | inl q ↦ subst (λ x. x.sends ≤ 1) (sym q) (omega arith)
    | inr x ↦ elim x.1 [ inl y ↦ omega (arith, y.0) | inr y ↦ absurd (ground (arith, sym y.1 ∙ e)) ]
  ]

  more_sent : (s : Shake W) → IsHonest s → s.multi_send ≡ true → 2 ≤ s.sends
  more_sent s h e = elim h [
    | inl q ↦ absurd (ground (arith, sym (ap (λ x. x.multi_send) q) ∙ e))
    | inr x ↦ elim x.1 [ inl y ↦ absurd (ground (arith, sym y.1 ∙ e)) | inr y ↦ y.0 ]
  ]

module _ {C W : Type 0} ⦃d : Double W⦄ ⦃k : Controller C W⦄ where
  -- The controller behind a handshake: with the time that the loop measured, with one packet at
  -- most, or as it was, behind several.
  abbrev pub IsGreeted : C → Option (Shake W × W) → C → Type 0
  IsGreeted c none c' = ⊥
  IsGreeted c (some (s, rtt)) c' =
      ((s.sends ≤ 1) × (c' ≡ k.set_min_rtt c rtt)) ⊎ ((2 ≤ s.sends) × (c' ≡ c))

  shaken-IsGreeted :
      (c : C) (o : Option (Shake W × W))
      → OnSome (λ x. IsHonest x.0) o
      → OnSome (IsGreeted c o) (shaken c o)
  unfolding shaken
  shaken-IsGreeted c none h = tt
  shaken-IsGreeted c (some (s, rtt)) h = elim (Bool-cases s.multi_send) [
    | inl e ↦ rw e (inr (more_sent s h e, refl))
    | inr e ↦ rw e (inl (one_sent s h e, refl))
  ]

  -- Where -1e9 is a number and no reading of the clock, a handshake that ends gives the controller the
  -- round-trip time that the loop measured if it sent one packet at most, and otherwise leaves the
  -- controller as it was.
  pub tcp_handshake-IsGreeted :
      (c : C) (ps : List (Pass W))
      → IsNum (never {W = W})
      → AreReadings ps
      → OnSome (IsGreeted c (shake new_shake ps)) (tcp_handshake c ps)
  tcp_handshake-IsGreeted c ps n r =
      shaken-IsGreeted c (shake new_shake ps) (shake-IsHonest new_shake ps n r (inl refl))
