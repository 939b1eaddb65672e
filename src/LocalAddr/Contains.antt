-- ===== src/LocalAddr/Contains.antt =====
-- Which addresses count as local after getLocal (src/packet.cpp, src/nethogs.cpp).
use nethogs.Base.{
  ℕ, ◌≡◌, ◌↔◌, ◌⊎◌, Bool, true, false, none, some, List, [], ◌∷◌, arith, bytes_eq_sound,
  bytes_eq_refl, Option,
}
use nethogs.LocalAddr.{
  AddressText, Raw, IfAddr, SockAddr, sin, sin6, other, LocalAddr, contains, contains6,
  add_sockaddr, get_local_step, get_local_loop, get_local,
}

-- An entry of the interface list has this name and this address.
abbrev pub Owns : List ℕ → SockAddr → List IfAddr → Type 0
Owns device a [] = ⊥
Owns device a (ifa ∷ ifas) = (ifa.ifa_name ≡ device) × (ifa.ifa_addr ≡ some a) ⊎ Owns device a ifas

-- Membership in the list of local addresses, at either family.
abbrev pub is_local : SockAddr → List LocalAddr → Bool
is_local (sin a) l = contains l a
is_local (sin6 a) l = contains6 l a
is_local other l = false

-- An address that getLocal takes: one of the two families.
abbrev pub IsInternet : SockAddr → Type 0
IsInternet (sin a) = Unit
IsInternet (sin6 a) = Unit
IsInternet other = ⊥

abbrev if_addr : List ℕ → Option SockAddr → ℕ → IfAddr
if_addr name o flags = record { ifa_name = name; ifa_addr = o; ifa_flags = flags }

module _ (net : AddressText) (raw : Raw) (device : List ℕ) where
  add-is_local :
      (a b : SockAddr) (l : List LocalAddr)
      → IsInternet a
      → (is_local a (add_sockaddr net raw b l) ≡ true) ↔ ((b ≡ a) ⊎ (is_local a l ≡ true))
  unfolding add_sockaddr contains contains6
  add-is_local (sin a) (sin b) l h = ground arith
  add-is_local (sin a) (sin6 b) l h = ground arith
  add-is_local (sin a) other l h = ground arith
  add-is_local (sin6 a) (sin b) l h = ground arith
  add-is_local (sin6 a) (sin6 b) l h = ground (arith, bytes_eq_refl a, bytes_eq_sound b a)
  add-is_local (sin6 a) other l h = ground arith
  add-is_local other b l h = elim h [ ]

  named-is_local :
      (a : SockAddr) (name : List ℕ) (o : Option SockAddr) (flags : ℕ) (l : List LocalAddr)
      → IsInternet a
      → (is_local a (get_local_step net raw device (if_addr name o flags) l) ≡ true)
        ↔ ((name ≡ device) × (o ≡ some a) ⊎ (is_local a l ≡ true))
  unfolding get_local_step
  named-is_local a name none flags l h = ground arith
  named-is_local a name (some b) flags l h =
      ground (arith, bytes_eq_refl device, bytes_eq_sound name device, add-is_local a b l h)

  step-is_local :
      (a : SockAddr) (ifa : IfAddr) (l : List LocalAddr)
      → IsInternet a
      → (is_local a (get_local_step net raw device ifa l) ≡ true)
        ↔ ((ifa.ifa_name ≡ device) × (ifa.ifa_addr ≡ some a) ⊎ (is_local a l ≡ true))
  step-is_local a ifa l h = named-is_local a ifa.ifa_name ifa.ifa_addr ifa.ifa_flags l h

  loop-is_local :
      (a : SockAddr) (ifas : List IfAddr) (l : List LocalAddr)
      → IsInternet a
      → (is_local a (get_local_loop net raw device ifas l) ≡ true)
        ↔ (Owns device a ifas ⊎ (is_local a l ≡ true))
  unfolding get_local_loop
  loop-is_local a [] l h = grind arith
  loop-is_local a (ifa ∷ ifas) l h =
      ground
        (arith, loop-is_local a ifas (get_local_step net raw device ifa l), step-is_local a ifa l)

  -- After a successful getLocal an address is local exactly if it was local before or an entry of
  -- the interface list with the device's name has it.
  pub get_local-is_local :
      (a : SockAddr) (ifas : List IfAddr) (l : List LocalAddr)
      → IsInternet a
      → (is_local a (get_local net raw device (some ifas) l).1 ≡ true)
        ↔ (Owns device a ifas ⊎ (is_local a l ≡ true))
  unfolding get_local
  get_local-is_local a ifas l h = loop-is_local a ifas l h
