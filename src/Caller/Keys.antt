-- ===== src/Caller/Keys.antt =====
-- The derived call keys: what a key depends on, and that it is not given twice.
use rekuest.Prelude.{
  ℕ, ◌+◌, ◌≡◌, ◌≢◌, ap, String, not, List, [], ◌∷◌, arith, ◌==◌, if◌then◌else◌, string_eq, nat_eq,
  pair_eq,
}
use rekuest.Prelude.Dict.{get_or, lookup-insert, lookup-keep_keys}
use rekuest.Caller.{AgentPostman, derive_call_key, forget_parent}

-- A call of a parent: the parent, and the target with the digest of the arguments.
abbrev pub Call : Type 0
Call = String × String

abbrev pub count : Call → List Call → ℕ
count c [] = 0
count c (d ∷ cs) = (if d == c then 1 else 0) + count c cs

module _ {V F : Type 0} where
  -- How often the counters say that a call was made.
  abbrev pub made : Call → AgentPostman V F → ℕ
  made c p = get_or c p.occurrences 0

  abbrev pub derive_all : List Call → AgentPostman V F → AgentPostman V F
  derive_all [] p = p
  derive_all ((parent, base) ∷ cs) p = derive_all cs (derive_call_key parent base p).0

  made-derive_call_key :
      (c : Call) (parent base : String) (p : AgentPostman V F)
      → made c (derive_call_key parent base p).0 ≡ made c p + (if (parent, base) == c then 1 else 0)
  unfolding derive_call_key
  made-derive_call_key (a, b) parent base p = ground (
    arith,
    lookup-insert (parent, base) (a, b) (made (parent, base) p + 1) p.occurrences,
    string_eq.beq_iff parent a,
    string_eq.beq_iff base b,
  )

  pub made-derive_all :
      (c : Call) (cs : List Call) (p : AgentPostman V F)
      → made c (derive_all cs p) ≡ made c p + count c cs
  made-derive_all c [] p = omega arith
  made-derive_all c ((parent, base) ∷ cs) p = omega (
    arith,
    made-derive_all c cs (derive_call_key parent base p).0,
    made-derive_call_key c parent base p,
  )

  -- The key of a call is its base with the number of times that its parent has made the same call,
  -- this one included. Calls of other parents, or with another base, in whatever order they come,
  -- do not change it.
  pub key_of_call :
      (parent base : String) (cs : List Call) (p : AgentPostman V F)
      → (derive_call_key parent base (derive_all cs p)).1
        ≡ (base, made (parent, base) p + count (parent, base) cs + 1)
  unfolding derive_call_key
  key_of_call parent base cs p = ap (λ n. (base, n + 1)) (made-derive_all (parent, base) cs p)

  -- A parent never gets the same key for two of its calls, whatever is called between them.
  pub keys_differ :
      (parent base base' : String) (between : List Call) (p : AgentPostman V F)
      → let (p', key) = derive_call_key parent base p in
        key ≢ (derive_call_key parent base' (derive_all between p')).1
  unfolding derive_call_key
  keys_differ parent base base' between p e =
      let p' = (derive_call_key parent base p).0 in
      absurd (
        omega (
          arith,
          ap (λ k. k.1) e,
          made-derive_all (parent, base') between p',
          here (ap (λ k. k.0) e),
        ))
    where
      here :
          base ≡ base'
          → made (parent, base') (derive_call_key parent base p).0 ≡ made (parent, base) p + 1
      here q = ground (
        arith,
        made-derive_call_key (parent, base') parent base p,
        string_eq.beq_iff parent parent,
        string_eq.beq_iff base base',
      )

  -- When a parent ends its counters go, and those of every other parent stay: its next call with any
  -- base is the first again.
  pub made-forget_parent :
      (ended parent base : String) (p : AgentPostman V F)
      → made (parent, base) (forget_parent ended p)
        ≡ (if parent == ended then 0 else made (parent, base) p)
  unfolding forget_parent
  made-forget_parent ended parent base p =
      ground (arith, lookup-keep_keys (λ (k, _). not (k == ended)) (parent, base) p.occurrences)
