-- ===== src/Ecdsa/Signing/PublicShare.antt =====
-- The additive share of a signer and its public additive share (ecdsa/signing/prepare.go).
use mpc_lib.Prelude.{
  ℕ, zero, suc, ◌+◌, ◌*◌, ◌<◌, ℤ, pos, ◌*ℤ◌, pos-*ℤ, ◌-ℤ◌, subst, List, [], ◌∷◌, length, map, emod,
  AreCongruent, congruent_of_eq, congruent_sym, ◌⨾◌, congruent-*ℤ, congruent-emod, ◌==◌, ◌==ℤ◌,
  Bool-cases, inl, inr, ◌≡◌, refl, sym, ap, ◌∙◌, arith,
}
use mpc_lib.Prelude.Result.{Result, ok, ◌>>=◌, nth, >>=-eq-ok}
use mpc_lib.Common.ModInt.{mul, mod_inverse}
use mpc_lib.Crypto.Curve.{Curve, IsGroup}
use mpc_lib.Crypto.Point.{EcPoint, scalar_mult}
use mpc_lib.Crypto.Point.Group.{at, is_accepted, scalar_mult-at}
use mpc_lib.Eddsa.Signing.Prepare.{inverse_or_panic, coefficient, weigh}
use mpc_lib.Ecdsa.Signing.Prepare.{raise, raise_all, prepare_shares}

coefficient-pos : (q : ℕ) (a b c : ℤ) → coefficient q a b ≡ ok c → (k : ℕ) × (c ≡ pos k)
unfolding coefficient mul
coefficient-pos q a b c e = elim (Bool-cases (a ==ℤ b)) [
  | inl y ↦ absurd (ground arith)
  | inr n ↦
      let e' : (do inv ← inverse_or_panic (mod_inverse q (a -ℤ b)); ok (pos (emod (a *ℤ inv) q)))
          ≡ ok c =
        rw n at e in
      let (inv, f, g) = >>=-eq-ok (inverse_or_panic (mod_inverse q (a -ℤ b))) _ e' in
      (emod (a *ℤ inv) q, ground arith)
]

mul_congruent : {q : ℕ} → 0 < q → (a b : ℤ) → AreCongruent q (mul q a b) (a *ℤ b)
unfolding mul
mul_congruent h a b = congruent-emod h (a *ℤ b)

module _ (ec : Curve) (G : IsGroup ec) where
  scalar_mult-eq-ok :
      (x k : ℕ) (p : EcPoint) → scalar_mult (at ec G x) (pos k) ≡ ok p → p ≡ at ec G (x * k)
  scalar_mult-eq-ok x k p e = elim (Bool-cases (is_accepted ec G (x * k))) [
    | inl y ↦ ground (arith, scalar_mult-at ec G x (pos k))
    | inr n ↦ absurd (ground (arith, scalar_mult-at ec G x (pos k)))
  ]

  raise-weigh :
      (j : ℕ) (kj : ℤ) (c x : ℕ) (wi w : ℤ) (p : EcPoint) (ks : List ℤ)
      → AreCongruent ec.n wi (pos x)
      → raise ec.n j kj c (at ec G x) ks ≡ ok p
      → weigh ec.n j kj c wi ks ≡ ok w
      → (y : ℕ) × (p ≡ at ec G y) × AreCongruent ec.n w (pos y)
  unfolding raise weigh
  raise-weigh j kj c x wi w p [] h e f =
      let same : wi ≡ w = ground arith in
      (x, ground arith, congruent_sym (congruent_of_eq ec.n same) ⨾ h)
  raise-weigh j kj c x wi w p (kc ∷ ks) h e f = elim (Bool-cases (c == j)) [
    | inl own ↦
        let e' : raise ec.n j kj (c + 1) (at ec G x) ks ≡ ok p = rw own at e in
        let f' : weigh ec.n j kj (c + 1) wi ks ≡ ok w = rw own at f in
        raise-weigh j kj (c + 1) x wi w p ks h e' f'
    | inr other ↦
        let e' : (do
          r ← (do iota ← coefficient ec.n kc kj; scalar_mult (at ec G x) iota)
          raise ec.n j kj (c + 1) r ks)
            ≡ ok p =
          rw other at e in
        let f' : (do
          v ← (do coef ← coefficient ec.n kc kj; ok (mul ec.n wi coef))
          weigh ec.n j kj (c + 1) v ks)
            ≡ ok w =
          rw other at f in
        let (r, e1, e2) =
          >>=-eq-ok (do iota ← coefficient ec.n kc kj; scalar_mult (at ec G x) iota) _ e' in
        let (iota, e3, e4) = >>=-eq-ok (coefficient ec.n kc kj) _ e1 in
        let (v, f1, f2) =
          >>=-eq-ok (do coef ← coefficient ec.n kc kj; ok (mul ec.n wi coef)) _ f' in
        let (coef, f3, f4) = >>=-eq-ok (coefficient ec.n kc kj) _ f1 in
        let (k, is_k) = coefficient-pos ec.n kc kj iota e3 in
        let r_at : r ≡ at ec G (x * k) =
          scalar_mult-eq-ok x k r (subst (λ z. scalar_mult (at ec G x) z ≡ ok r) is_k e4) in
        let coef_k : coef ≡ pos k = ground arith in
        let v_is : v ≡ mul ec.n wi (pos k) = ground arith in
        raise-weigh j kj (c + 1) (x * k) v w p ks (congruent_of_eq ec.n v_is ⨾ stepped wi x k h)
          (subst (λ q. raise ec.n j kj (c + 1) q ks ≡ ok p) r_at e2) f2
  ]
    where
      stepped :
          (wi : ℤ) (x k : ℕ)
          → AreCongruent ec.n wi (pos x)
          → AreCongruent ec.n (mul ec.n wi (pos k)) (pos (x * k))
      stepped wi x k h =
          mul_congruent positive wi (pos k)
          ⨾ congruent-*ℤ positive h (congruent_of_eq ec.n refl)
          ⨾ congruent_of_eq ec.n (pos-*ℤ x k)
        where
          positive : 0 < ec.n
          positive = omega (arith, G.order)

  right_zero : (n : ℕ) → n + 0 ≡ n
  right_zero n = omega arith

  raise_all-nth :
      (all_ks : List ℤ) (j i : ℕ) (ks : List ℤ) (xs : List ℕ) (ki : ℤ) (x : ℕ) (ws : List EcPoint)
      → raise_all ec.n all_ks j ks (map (at ec G) xs) ≡ ok ws
      → nth ks i ≡ ok ki
      → nth xs i ≡ ok x
      → (p : EcPoint) × (nth ws i ≡ ok p) × (raise ec.n (j + i) ki 0 (at ec G x) all_ks ≡ ok p)
  unfolding raise_all
  raise_all-nth all_ks j i [] xs ki x ws e f g = absurd (cc)
  raise_all-nth all_ks j i (k ∷ ks) [] ki x ws e f g = absurd (cc)
  raise_all-nth all_ks j zero (k ∷ ks) (y ∷ xs) ki x ws e f g =
      let (p, e1, e2) = >>=-eq-ok (raise ec.n j k 0 (at ec G y) all_ks) _ e in
      let (ps, e3, e4) = >>=-eq-ok (raise_all ec.n all_ks (j + 1) ks (map (at ec G) xs)) _ e2 in
      let same_k : k ≡ ki = ground arith in
      let same_x : y ≡ x = ground arith in
      let moved : raise ec.n (j + 0) ki 0 (at ec G x) all_ks ≡ raise ec.n j k 0 (at ec G y) all_ks =
        cc (same_k, same_x, right_zero j) in
      (p, ground arith, moved ∙ e1)
  raise_all-nth all_ks j (suc i) (k ∷ ks) (y ∷ xs) ki x ws e f g =
      let (p, e1, e2) = >>=-eq-ok (raise ec.n j k 0 (at ec G y) all_ks) _ e in
      let (ps, e3, e4) = >>=-eq-ok (raise_all ec.n all_ks (j + 1) ks (map (at ec G) xs)) _ e2 in
      let (r, e5, e6) = raise_all-nth all_ks (j + 1) i ks xs ki x ps e3 f g in
      let moved : raise ec.n (j + suc i) ki 0 (at ec G x) all_ks
          ≡ raise ec.n (j + 1 + i) ki 0 (at ec G x) all_ks =
        ap (λ (n : ℕ). raise ec.n n ki 0 (at ec G x) all_ks) (omega arith) in
      (r, ground arith, moved ∙ e6)

  -- Where the preparation of a signer succeeds on public shares in the group, of which its own is that
  -- of its secret share modulo the order, its public additive share is in the group and belongs to its
  -- additive share: the latter is, modulo the order, its discrete logarithm.
  pub prepare_shares_lem :
      (i pax x : ℕ) (xi w : ℤ) (ks : List ℤ) (xs : List ℕ) (ws : List EcPoint)
      → nth xs i ≡ ok x
      → AreCongruent ec.n xi (pos x)
      → prepare_shares ec i pax xi ks (map (at ec G) xs) ≡ ok (w, ws)
      → (y : ℕ) × (nth ws i ≡ ok (at ec G y)) × AreCongruent ec.n w (pos y)
  unfolding prepare_shares
  prepare_shares_lem i pax x xi w ks xs ws g c e =
      elim (Bool-cases (length ks == length (map (at ec G) xs))) [
        | inl y ↦ elim (Bool-cases (length ks == pax)) [
          | inl z ↦
              let e' : run ≡ ok (w, ws) = ground arith in
              let (ki, e1, e2) = >>=-eq-ok (nth ks i) _ e' in
              let (wi, e3, e4) = >>=-eq-ok (weigh ec.n i ki 0 xi ks) _ e2 in
              let (bs, e5, e6) = >>=-eq-ok (raise_all ec.n ks 0 ks (map (at ec G) xs)) _ e4 in
              let same : (wi, bs) ≡ (w, ws) = ground arith in
              let (p, n, r) = raise_all-nth ks 0 i ks xs ki x bs e5 e1 g in
              let r' : raise ec.n i ki 0 (at ec G x) ks ≡ ok p =
                ap (λ (m : ℕ). raise ec.n m ki 0 (at ec G x) ks) (omega arith) ∙ r in
              let (v, p_at, cong) = raise-weigh i ki 0 x xi wi p ks c r' e3 in
              (
                v,
                ap (λ (q : ℤ × List EcPoint). nth q.1 i) (sym same) ∙ n ∙ ap ok p_at,
                congruent_of_eq ec.n (ap (λ (q : ℤ × List EcPoint). q.0) (sym same)) ⨾ cong,
              )
          | inr z ↦ absurd (ground arith)
        ]
        | inr y ↦ absurd (ground arith)
      ]
    where
      run : Result (ℤ × List EcPoint)
      run = do
        ksi ← nth ks i
        wi ← weigh ec.n i ksi 0 xi ks
        big_ws ← raise_all ec.n ks 0 ks (map (at ec G) xs)
        ok (wi, big_ws)
