-- ===== src/Server/Reactor/Sweep.antt =====
-- The sweep drops the connections past their deadline and no other.
use rust_tcp_server.Base.{
  ℕ, ◌≡◌, refl, subst, ==_iff, ◌∙◌, Bool, false, ◌||◌, ◌==◌, Bool-cases, inl, inr, List, [], ◌∷◌,
  Option, none, some, if◌then◌else◌, arith,
}
use rust_tcp_server.Base.Assoc.{find_key, find_key-remove_key}
use rust_tcp_server.Connection.{is_expired}
use rust_tcp_server.Server.Reactor.{Reactor, Calls, drop_conn, drop_each, sweep_expired}
use rust_tcp_server.Server.Table.{Slot, expired_in, get_slot}

abbrev pub mem : ℕ → List ℕ → Bool
mem q [] = false
mem q (fd ∷ fds) = fd == q || mem q fds

-- Each key stands once.
abbrev pub Unique : {A : Type 0} → List (ℕ × A) → Type 0
Unique [] = Unit {0}
Unique ((j, a) ∷ m) = (find_key j m ≡ none) × Unique m

-- What the sweep leaves of what is found under a descriptor.
abbrev pub unexpired : {K : Type 0} → ℕ → Option (Slot K) → Option (Slot K)
unexpired now none = none
unexpired now (some slot) = if is_expired slot.conn now then none else some slot

mem-expired_in :
    {K : Type 0} (now q : ℕ) (m : List (ℕ × Slot K))
    → find_key q m ≡ none
    → mem q (expired_in now m) ≡ false
unfolding expired_in find_key
mem-expired_in now q [] h = refl
mem-expired_in now q ((j, slot) ∷ m) h = ground (arith, mem-expired_in now q m)

left_over :
    {K : Type 0} (now q : ℕ) (m : List (ℕ × Slot K))
    → Unique m
    → (if mem q (expired_in now m) then none else find_key q m) ≡ unexpired now (find_key q m)
unfolding expired_in find_key
left_over now q [] u = refl
left_over now q ((j, slot) ∷ m) u = elim (Bool-cases (j == q)) [
  | inl e ↦
      let gone = mem-expired_in now q m (subst (λ k. find_key k m ≡ none) ((==_iff j q).0 e) u.0) in
      elim (Bool-cases (is_expired slot.conn now)) [
        | inl x ↦ rw (e, x, e) refl
        | inr x ↦ rw (e, x, gone) refl
      ]
  | inr e ↦ elim (Bool-cases (is_expired slot.conn now)) [
    | inl x ↦ rw (e, x, e) (left_over now q m u.1)
    | inr x ↦ rw (e, x) (left_over now q m u.1)
  ]
]

module _ {K E L : Type 0} (calls : Calls K E L) where
  drop_each-found :
      (s : Reactor K E L) (fds : List ℕ) (q : ℕ)
      → get_slot (drop_each calls s fds).conns q ≡ (if mem q fds then none else get_slot s.conns q)
  unfolding drop_each drop_conn
  drop_each-found s [] q = refl
  drop_each-found s (fd ∷ fds) q =
      drop_each-found (drop_conn calls s fd) fds q
      ∙ ground (arith, find_key-remove_key fd q s.conns.slots)

  -- After a sweep a descriptor has the connection that it had, unless that one's deadline has passed,
  -- and then it has none.
  pub sweep_expired-unexpired :
      (now : ℕ) (s : Reactor K E L) (q : ℕ)
      → Unique s.conns.slots
      → get_slot (sweep_expired calls now s).conns q ≡ unexpired now (get_slot s.conns q)
  unfolding sweep_expired
  sweep_expired-unexpired now s q u =
      drop_each-found s (expired_in now s.conns.slots) q ∙ left_over now q s.conns.slots u
