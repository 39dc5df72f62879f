-- ===== src/Session/Index.antt =====
-- The two indexes of a manager, by connection and by token, and its local sessions.
pub mod Runs
use atlas_game_layout.Common.{
  ℕ, String, Bool, true, false, not, ◌&&◌, List, [], ◌∷◌, Option, none, some, ◌≡◌, refl, Map,
  lookup, insert, delete, lookup-insert, lookup-delete, ◌==◌, string_key, str_iff, is_some,
  if◌then◌else◌, arith, Bool-cases, Option-cases, ◌⊎◌, inl, inr,
}
use atlas_game_layout.Session.{
  Session, Conn, Manager, ref_of, drop_stale_refs, token_index_set, token_index_remove,
  drop_old_token, drop_conn_refs, bind_local, drop_session,
}

-- Every entry of an index by a field is of a local session that has that field, and no entry is
-- under the empty string.
pub record Sound (field : Session → String) (idx : Map String String) (local : Map String Session)
    : Type 0 where
  pub live :
      (k q : String)
      → lookup k idx ≡ some q
      → (s : Session) × (lookup q local ≡ some s) × (field s ≡ k)
  pub no_empty : lookup "" idx ≡ none

-- Both indexes, by the identity of the connection and by the token.
pub record IsIndexed (m : Manager) : Type 0 where
  pub by_ref : Sound ref_of m.refs m.local
  pub by_token : Sound (λ s. s.token) m.toks m.local

-- Whether a key goes when a session is replaced by one with another field.
abbrev stale : (Session → String) → Option Session → Session → String → Bool
stale field none next k = false
stale field (some prev) next k =
    not (field prev == "") && (field prev == k) && not (field next == field prev)

abbrev replaced :
    (Session → String)
    → Map String String
    → Option Session
    → Session
    → String
    → String
    → Option String
replaced field idx prev next p k =
    if not (field next == "") && field next == k
    then some p
    else if stale field prev next k
    then none
    else lookup k idx

not_empty :
    (field : Session → String) (idx : Map String String) (local : Map String Session) (k q : String)
    → Sound field idx local
    → lookup k idx ≡ some q
    → (k == "") ≡ false
not_empty field idx local k q s at = elim (Bool-cases (k == "")) [
  | inl e ↦ absurd (ground (arith, s.no_empty, str_iff k ""))
  | inr e ↦ e
]

key_gone :
    (field : Session → String) (next old : Session) (k : String)
    → field old ≡ k
    → (field next == k) ≡ false
    → (k == "") ≡ false
    → stale field (some old) next k ≡ true
key_gone field next old k e ne some_key = rw e (ground (arith, str_iff k k))

Sound-replaced :
    (field : Session → String) (idx idx' : Map String String) (local : Map String Session)
    (p : String) (next : Session)
    → Sound field idx local
    → ((k : String) → lookup k idx' ≡ replaced field idx (lookup p local) next p k)
    → Sound field idx' (insert p next local)
Sound-replaced field idx idx' local p next s h = record {
  live = λ k q at. found k q at (Bool-cases (p == q)) (Bool-cases (field next == k));
  no_empty = ground (arith, h "", s.no_empty, str_iff (field next) "");
}
  where
    found :
        (k q : String)
        → lookup k idx' ≡ some q
        → ((p == q) ≡ true) ⊎ ((p == q) ≡ false)
        → ((field next == k) ≡ true) ⊎ ((field next == k) ≡ false)
        → (t : Session) × (lookup q (insert p next local) ≡ some t) × (field t ≡ k)
    found k q at (inl own) (inl e) =
        (next, ground (arith, lookup-insert p q next local), ground (arith, str_iff (field next) k))
    found k q at (inl own) (inr ne) =
        let was : lookup k idx ≡ some q = ground (arith, h k) in
        let (t, here, e) = s.live k q was in
        let mine : lookup p local ≡ some t = ground (arith, str_iff p q) in
        let gone = key_gone field next t k e ne (not_empty field idx local k q s was) in
        let stale_now : stale field (lookup p local) next k ≡ true = rw mine gone in
        absurd (ground (arith, h k))
    found k q at (inr other) f =
        let was : lookup k idx ≡ some q = ground (arith, h k, str_iff p q) in
        let (t, here, e) = s.live k q was in (t, ground (arith, lookup-insert p q next local), e)

-- A session goes, and its key with it.
Sound-dropped :
    (field : Session → String) (idx idx' : Map String String) (local : Map String Session)
    (p : String) (gone : Session)
    → Sound field idx local
    → lookup p local ≡ some gone
    → ((k : String)
        → lookup k idx'
          ≡ (if not (field gone == "") && field gone == k then none else lookup k idx))
    → Sound field idx' (delete p local)
Sound-dropped field idx idx' local p gone s mine h = record {
  live = λ k q at. found k q at (Bool-cases (p == q));
  no_empty = ground (arith, h "", s.no_empty);
}
  where
    found :
        (k q : String)
        → lookup k idx' ≡ some q
        → ((p == q) ≡ true) ⊎ ((p == q) ≡ false)
        → (t : Session) × (lookup q (delete p local) ≡ some t) × (field t ≡ k)
    found k q at own =
        let was : lookup k idx ≡ some q = ground (arith, h k) in
        let (t, here, e) = s.live k q was in
        elim own [
          | inl o ↦ absurd (
              ground (
                arith,
                h k,
                s.no_empty,
                str_iff p q,
                str_iff (field gone) k,
                str_iff (field gone) "",
              ))
          | inr o ↦ (t, ground (arith, lookup-delete p q local), e)
        ]

-- A session changes, and its key does not.
Sound-kept :
    (field : Session → String) (idx : Map String String) (local : Map String Session) (p : String)
    (was is : Session)
    → Sound field idx local
    → lookup p local ≡ some was
    → field is ≡ field was
    → Sound field idx (insert p is local)
Sound-kept field idx local p was is s mine same = record {
  live = λ k q at. found k q (s.live k q at) (Bool-cases (p == q));
  no_empty = s.no_empty;
}
  where
    found :
        (k q : String)
        → (t : Session) × (lookup q local ≡ some t) × (field t ≡ k)
        → ((p == q) ≡ true) ⊎ ((p == q) ≡ false)
        → (t : Session) × (lookup q (insert p is local) ≡ some t) × (field t ≡ k)
    found k q (t, here, e) (inl o) =
        (is, ground (arith, lookup-insert p q is local), ground (arith, str_iff p q))
    found k q (t, here, e) (inr o) = (t, ground (arith, lookup-insert p q is local), e)

pub bind_local-IsIndexed :
    (m : Manager) (p : String) (c : Conn) (token : String) (now : ℕ)
    → IsIndexed m
    → IsIndexed (bind_local m p c token now).0
unfolding bind_local drop_stale_refs token_index_set token_index_remove
bind_local-IsIndexed m p c token now i = record {
  by_ref =
      Sound-replaced ref_of m.refs (bind_local m p c token now).0.refs m.local p next i.by_ref refs;
  by_token =
      Sound-replaced (λ s. s.token) m.toks (bind_local m p c token now).0.toks m.local p next
        i.by_token toks;
}
  where
    next : Session
    next = (bind_local m p c token now).1

    refs :
        (k : String)
        → lookup k (bind_local m p c token now).0.refs
          ≡ replaced ref_of m.refs (lookup p m.local) next p k
    refs k = elim (Option-cases (lookup p m.local)) [
      | inl e ↦ ground (arith, lookup-insert c.ref k p m.refs, str_iff c.ref k)
      | inr (prev, e) ↦ ground (
        arith,
        lookup-insert c.ref k p m.refs,
        lookup-insert c.ref k p (delete (ref_of prev) m.refs),
        lookup-delete (ref_of prev) k m.refs,
        str_iff c.ref k,
        str_iff c.ref (ref_of prev),
      )
    ]

    toks :
        (k : String)
        → lookup k (bind_local m p c token now).0.toks
          ≡ replaced (λ s. s.token) m.toks (lookup p m.local) next p k
    toks k = elim (Option-cases (lookup p m.local)) [
      | inl e ↦ ground (arith, lookup-insert token k p m.toks)
      | inr (prev, e) ↦ ground (
        arith,
        lookup-insert token k p m.toks,
        lookup-insert token k p (delete prev.token m.toks),
        lookup-delete prev.token k m.toks,
        str_iff prev.token token,
        str_iff token prev.token,
      )
    ]

pub drop_session-IsIndexed :
    (m : Manager) (p : String) (s : Session)
    → lookup p m.local ≡ some s
    → IsIndexed m
    → IsIndexed (drop_session m p s)
unfolding drop_session drop_conn_refs token_index_remove
drop_session-IsIndexed m p s at i = record {
  by_ref =
      Sound-dropped ref_of m.refs (drop_conn_refs m.refs s) m.local p s i.by_ref at
        (λ k. ground (arith, lookup-delete (ref_of s) k m.refs));
  by_token =
      Sound-dropped (λ t. t.token) m.toks (token_index_remove m.toks s.token) m.local p s i.by_token
        at (λ k. ground (arith, lookup-delete s.token k m.toks));
}

pub beat-IsIndexed :
    (m : Manager) (p : String) (s : Session) (now : ℕ)
    → lookup p m.local ≡ some s
    → IsIndexed m
    → IsIndexed (record m { local = insert p (record s { last_heartbeat = now }) m.local })
beat-IsIndexed m p s now at i = record {
  by_ref =
      Sound-kept ref_of m.refs m.local p s (record s { last_heartbeat = now }) i.by_ref at refl;
  by_token =
      Sound-kept (λ t. t.token) m.toks m.local p s (record s { last_heartbeat = now }) i.by_token at
        refl;
}
