-- ===== src/Dpop/Replay/Register.antt =====
-- dpop/replay.go: the cache against a register of single use that keeps every record.
use mcp_auth_go.Prelude.{
  Str, ◌==◌, eq_iff, Bool, true, false, not, ◌&&◌, ◌||◌, List, [], ◌∷◌, GoMap, lookup, insert,
  delete_if, length, ltb, lookup-insert, lookup-delete_if, insert-IsMap, IsMap, Time, ◌≤ℤ◌, before,
  if◌then◌else◌, ◌≡◌, refl, sym, ap, subst, ◌∙◌, inl, inr, arith, Bool-cases, Option-cases,
}
use mcp_auth_go.Dpop.Replay.{
  MemoryReplayCache, new_memory_replay_cache, sweep, record_key, seen_before,
  replay_sweep_threshold,
}
use mcp_auth_go.Dpop.Replay.SingleUse.{
  Sight, see, key_of, current, see-current, seen_before-IsMap, seen-see,
}

-- The keys that were let pass, with the expiry of each.
abbrev pub Register : Type 0
Register = List (Str × Time)

-- A key is used as long as some record of it has not expired.
abbrev pub is_used : Register → Time → Str → Bool
is_used [] now key = false
is_used ((k, exp) ∷ reg) now key = (k == key && before now exp) || is_used reg now key

-- The register answers whether the key is used, and records it if it is not.
abbrev pub register_see : Register → Sight → Register × Bool
register_see reg s =
    if is_used reg s.now (key_of s) then (reg, true) else ((key_of s, s.exp) ∷ reg, false)

register_see-used :
    (reg : Register) (s : Sight) → is_used reg s.now (key_of s) ≡ (register_see reg s).1
register_see-used reg s = ground arith

-- The answers to a run of calls.
unfoldable pub register_answers : Register → List Sight → List Bool
register_answers reg [] = []
register_answers reg (s ∷ calls) =
    (register_see reg s).1 ∷ register_answers (register_see reg s).0 calls

unfoldable pub replay_answers : MemoryReplayCache → List Sight → List Bool
replay_answers c [] = []
replay_answers c (s ∷ calls) = (see c s).1 ∷ replay_answers (see c s).0 calls

-- The calls come at instants that do not go back.
abbrev pub Ordered : Time → List Sight → Type 0
Ordered t [] = Unit
Ordered t (s ∷ calls) = (t ≤ℤ s.now) × Ordered s.now calls

-- A record that has expired stays expired.
before_mono : (t u exp : Time) → t ≤ℤ u → before t exp ≡ false → before u exp ≡ false
before_mono t u exp h e = ground arith

is_used_mono :
    (reg : Register) (t u : Time) (key : Str)
    → t ≤ℤ u
    → is_used reg t key ≡ false
    → is_used reg u key ≡ false
is_used_mono [] t u key h e = refl
is_used_mono ((k, exp) ∷ reg) t u key h e =
    ground (arith, is_used_mono reg t u key h, before_mono t u exp h)

current-delete_if :
    (now t : Time) (key : Str) (seen : GoMap Time)
    → IsMap seen
    → now ≤ℤ t
    → current (delete_if (λ exp. not (before now exp)) seen) t key ≡ current seen t key
current-delete_if now t key seen d h = elim (Option-cases (lookup key seen)) [
  | inl e ↦ ground (arith, lookup-delete_if (λ exp. not (before now exp)) key seen d)
  | inr (exp, e) ↦
      ground
        (arith, lookup-delete_if (λ exp. not (before now exp)) key seen d, before_mono now t exp h)
]

-- From `now` on a sweep at `now` hides nothing.
current-sweep :
    (now t : Time) (key : Str) (seen : GoMap Time)
    → IsMap seen
    → now ≤ℤ t
    → current (sweep now seen) t key ≡ current seen t key
unfolding sweep
current-sweep now t key seen d h = elim (Bool-cases (ltb replay_sweep_threshold (length seen))) [
  | inl large ↦ rw large (current-delete_if now t key seen d h)
  | inr small ↦ rw small refl
]

-- From `now` on the cache and the register agree on every key.
abbrev Agrees : Time → MemoryReplayCache → Register → Type 0
Agrees now c reg = (t : Time) (key : Str) → now ≤ℤ t → current c.seen t key ≡ is_used reg t key

see-replay : (c : MemoryReplayCache) (s : Sight) → (see c s).1 ≡ true → (see c s).0 ≡ c
unfolding seen_before record_key
see-replay c s h = ground arith

current-insert :
    (k key : Str) (exp t : Time) (seen : GoMap Time)
    → current (insert k exp seen) t key ≡ (if k == key then before t exp else current seen t key)
current-insert k key exp t seen = ground (arith, lookup-insert k key exp seen)

-- A record for a key that was not used.
used-add :
    (reg : Register) (now t exp : Time) (k key : Str)
    → now ≤ℤ t
    → is_used reg now k ≡ false
    → is_used ((k, exp) ∷ reg) t key ≡ (if k == key then before t exp else is_used reg t key)
used-add reg now t exp k key h new = elim (Bool-cases (k == key)) [
  | inl e ↦
      let unused =
        subst (λ x. is_used reg t x ≡ false) ((eq_iff k key).0 e)
          (is_used_mono reg now t k h new) in
      ground arith
  | inr e ↦ ground arith
]

see-used :
    (c : MemoryReplayCache) (reg : Register) (s : Sight)
    → Agrees s.now c reg
    → (see c s).1 ≡ is_used reg s.now (key_of s)
see-used c reg s same = see-current c s ∙ same s.now (key_of s) (omega arith)

see-Agrees :
    (c : MemoryReplayCache) (reg : Register) (s : Sight)
    → IsMap c.seen
    → Agrees s.now c reg
    → Agrees s.now (see c s).0 (register_see reg s).0
see-Agrees c reg s d same t key h = elim (Bool-cases (is_used reg s.now (key_of s))) [
  | inl used ↦ rw (see-replay c s (see-used c reg s same ∙ used), used) (same t key h)
  | inr new ↦
      let added = insert (key_of s) s.exp c.seen in
      rw (seen-see c s (see-used c reg s same ∙ new), new)
        (current-sweep s.now t key added (insert-IsMap (key_of s) s.exp c.seen d) h
          ∙ current-insert (key_of s) key s.exp t c.seen
          ∙ ap (λ x. if key_of s == key then before t s.exp else x) (same t key h)
          ∙ sym (used-add reg s.now t s.exp (key_of s) key h new))
]

run-Agrees :
    (t : Time) (c : MemoryReplayCache) (reg : Register) (calls : List Sight)
    → IsMap c.seen
    → Agrees t c reg
    → Ordered t calls
    → replay_answers c calls ≡ register_answers reg calls
unfolding replay_answers register_answers
run-Agrees t c reg [] d same o = refl
run-Agrees t c reg (s ∷ calls) d same o =
    let here : Agrees s.now c reg = (λ u key h. same u key (omega (arith, o.0, h))) in
    let rest =
      run-Agrees s.now (see c s).0 (register_see reg s).0 calls (seen_before-IsMap c s d)
        (see-Agrees c reg s d here) o.1 in
    let answer : (see c s).1 ≡ (register_see reg s).1 =
      see-used c reg s here ∙ register_see-used reg s in
    rw (answer, rest) refl

-- A new cache answers any run of calls, at instants that do not go back, like the register that keeps
-- every record: neither the sweeps nor the records that replace expired ones ever change an answer.
pub seen_before-register :
    (t : Time) (calls : List Sight)
    → Ordered t calls
    → replay_answers new_memory_replay_cache calls ≡ register_answers [] calls
unfolding new_memory_replay_cache lookup
seen_before-register t calls o =
    run-Agrees t new_memory_replay_cache [] calls tt (λ u key h. refl) o
