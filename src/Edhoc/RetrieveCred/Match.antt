-- ===== src/Edhoc/RetrieveCred/Match.antt =====
-- What `retrieve_cred` and the search for a CA in modules/edhoc/src/retrieve_cred.c take for a match.
use uoscore_uedhoc.Base.{
  ==_iff, ==_refl, Bool, Bool-cases, List, [], append_assoc, ap₂, arith, drop, err, false, inl, inr,
  leb, length, length-take, none, ok, ok-injective, refl, some, subst, suc, sym, take,
  take-append-drop, true, zero, ℕ, ◌++◌, ◌==◌, ◌∷◌, ◌≡◌, ◌≢◌, ◌≤◌,
}
use uoscore_uedhoc.Edhoc.{EdhocResult, OtherPartyCred, bytes_at, contents, no_such_ca}
use uoscore_uedhoc.Edhoc.Host.{Host, memcmp_equal}
use uoscore_uedhoc.Edhoc.RetrieveCred.{find_ca, keys_of, retrieve_cred}
use uoscore_uedhoc.Memory.{Bytes, Pointer, memory}

pub bytes_at-memory :
    (p : Pointer) (n : ℕ) (bs : Bytes)
    → bytes_at p n ≡ ok bs
    → (rest : Bytes) × (memory p ≡ bs ++ rest) × (length bs ≡ n)
unfolding bytes_at
bytes_at-memory p zero bs e = rw (← ok-injective e) (memory p, refl, refl)
bytes_at-memory none (suc n) bs e = cc
bytes_at-memory (some m) (suc n) bs e = elim (Bool-cases (leb (suc n) (length m))) [
  | inl fits ↦
      let same : take (suc n) m ≡ bs = ok-injective (rw fits at e) in
      let enough : suc n ≤ length m = ground arith in
      (
        drop (suc n) m,
        rw (← same) (sym (take-append-drop (suc n) m)),
        rw (← same) (omega (arith, length-take (suc n) m)),
      )
  | inr short ↦ cc (rw short at e)
]

memcmp_equal-same : (xs u v : Bytes) → memcmp_equal (length xs) (xs ++ u) (xs ++ v) ≡ ok true
unfolding memcmp_equal
memcmp_equal-same [] u v = refl
memcmp_equal-same (x ∷ xs) u v = rw (==_refl x) (memcmp_equal-same xs u v)

memcmp_equal-differ :
    (xs u q : Bytes)
    → length xs ≤ length q
    → take (length xs) q ≢ xs
    → memcmp_equal (length xs) (xs ++ u) q ≡ ok false
unfolding memcmp_equal
memcmp_equal-differ [] u q fits differ = absurd (differ refl)
memcmp_equal-differ (x ∷ xs) u [] fits differ = absurd (omega arith)
memcmp_equal-differ (x ∷ xs) u (y ∷ q) fits differ = elim (Bool-cases (x == y)) [
  | inl same ↦ rw same (
      memcmp_equal-differ xs u q (omega arith)
        (λ e. differ (ap₂ ◌∷◌ (sym ((==_iff x y).0 same)) e)))
  | inr other ↦ rw other
]

-- The search for the CA is the wrong way round. A certificate whose issuer starts with the name of the first CA
-- is refused, and one whose issuer does not is verified with the key of that CA; the CAs behind it are not
-- looked at. The issuers are those of two certificates, with what stands behind them.
pub find_ca_inverted :
    (c : OtherPartyCred) (cs : List OtherPartyCred) (name rest other : Bytes)
    → contents c.ca ≡ ok name
    → length name ≤ length other
    → take (length name) other ≢ name
    → (find_ca (c ∷ cs) (name ++ rest) ≡ err no_such_ca) × (find_ca (c ∷ cs) other ≡ ok c.ca_pk)
unfolding find_ca
find_ca_inverted c cs name rest other has fits differ =
    let (more, in_memory, len) = bytes_at-memory c.ca.ptr c.ca.len name has in
    let by_name =
      λ (q : Bytes) (answer : EdhocResult Bool)
          (e : memcmp_equal (length name) (name ++ more) q ≡ answer).
        subst (λ n. memcmp_equal n (name ++ more) q ≡ answer) len e in
    rw in_memory (
      rw
        (
          by_name (name ++ rest) (ok true) (memcmp_equal-same name more rest),
          by_name other (ok false) (memcmp_equal-differ name more other fits differ),
        )
        (refl, refl))

-- A preestablished credential is found by its ID_CRED_x and by each beginning of it, the empty one too: the first
-- credential is taken if the first `n` bytes of its ID_CRED_x stand at the start of the array, where `n` is the
-- length that the other party sent. Its key is the static DH key or the signature key, as the method says.
pub retrieve_cred_prefix :
    (h : Host) (static_dh : Bool) (c : OtherPartyCred) (cs : List OtherPartyCred)
    (id_front id_back rest : Bytes)
    → contents c.id_cred ≡ ok (id_front ++ id_back)
    → retrieve_cred h static_dh (c ∷ cs) (id_front ++ rest) (length id_front)
      ≡ ok (keys_of static_dh c.cred c.pk c.g)
unfolding retrieve_cred
retrieve_cred_prefix h static_dh c cs id_front id_back rest has =
    let (more, in_memory, len) =
      bytes_at-memory c.id_cred.ptr c.id_cred.len (id_front ++ id_back) has in
    rw (in_memory, append_assoc id_front id_back more)
      (rw (memcmp_equal-same id_front (id_back ++ more) rest) refl)
