-- ===== src/Udp/SessionManager/Setup.antt =====
-- The manager starts exactly when its port was made and each of the three handlers has been set.
use Prim.Native.Nat.{bit_or}
use server_core.Common.{
  ℕ, ◌+◌, ◌≡◌, refl, ap, ◌∙◌, Bool, true, false, not, ◌&&◌, ◌||◌, List, [], ◌∷◌, ◌==◌,
  if◌then◌else◌, arith,
}
use server_core.Udp.Packet.{Data}
use server_core.Udp.SessionManager.{
  Manager, Session, Handler, accept, disconnect, packet, flag, new_manager, set_handler, run,
}

-- The handlers set one after another, in any order and any number of times.
abbrev pub set_handlers : Manager → List Handler → Manager
set_handlers m [] = m
set_handlers m (h ∷ hs) = set_handlers (set_handler m h) hs

abbrev same_handler : Handler → Handler → Bool
same_handler accept accept = true
same_handler disconnect disconnect = true
same_handler packet packet = true
same_handler _ _ = false

abbrev pub has : Handler → List Handler → Bool
has h [] = false
has h (k ∷ hs) = same_handler k h || has h hs

-- The flags of the handlers set, and of the port that could not be made.
abbrev mask : Bool → Bool → Bool → Bool → ℕ
mask a d p x =
    (if a then 0x01 else 0)
    + (if d then 0x10 else 0)
    + (if p then 0x100 else 0)
    + (if x then 0x1000 else 0)

abbrev mask_with : Handler → Bool → Bool → Bool → Bool → ℕ
mask_with accept a d p x = mask true d p x
mask_with disconnect a d p x = mask a true p x
mask_with packet a d p x = mask a d true x

==→eq : (a b : ℕ) → (a == b) ≡ true → a ≡ b
==→eq a b h = ground arith

-- A test that holds of both Booleans.
abbrev each : (Bool → Bool) → Bool
each f = f true && f false

each_sound : (f : Bool → Bool) (b : Bool) → each f ≡ true → f b ≡ true
each_sound f true h = ground arith
each_sound f false h = ground arith

abbrev flag_test : Handler → Bool → Bool → Bool → Bool → Bool
flag_test h a d p x = bit_or (mask a d p x) (flag h) == mask_with h a d p x

flag_table :
    (h : Handler) → each (λ a. each (λ d. each (λ p. each (λ x. flag_test h a d p x)))) ≡ true
flag_table accept = refl
flag_table disconnect = refl
flag_table packet = refl

bit_or-flag : (h : Handler) (a d p x : Bool) → bit_or (mask a d p x) (flag h) ≡ mask_with h a d p x
bit_or-flag h a d p x =
    let t₁ =
      each_sound (λ a. each (λ d. each (λ p. each (λ x. flag_test h a d p x)))) a (flag_table h) in
    let t₂ = each_sound (λ d. each (λ p. each (λ x. flag_test h a d p x))) d t₁ in
    let t₃ = each_sound (λ p. each (λ x. flag_test h a d p x)) p t₂ in
    let t₄ : flag_test h a d p x ≡ true = each_sound (λ x. flag_test h a d p x) x t₃ in
    ==→eq (bit_or (mask a d p x) (flag h)) (mask_with h a d p x) t₄

set_handlers-mask :
    (hs : List Handler) (m : Manager) (a d p x : Bool)
    → m.is_inited_all ≡ mask a d p x
    → (set_handlers m hs).is_inited_all
      ≡ mask (a || has accept hs) (d || has disconnect hs) (p || has packet hs) x
unfolding set_handler
set_handlers-mask [] m a d p x e = ground arith
set_handlers-mask (accept ∷ hs) m a d p x e =
    set_handlers-mask hs (set_handler m accept) true d p x
      (ap (λ (n : ℕ). bit_or n 0x01) e ∙ bit_or-flag accept a d p x)
    ∙ ground arith
set_handlers-mask (disconnect ∷ hs) m a d p x e =
    set_handlers-mask hs (set_handler m disconnect) a true p x
      (ap (λ (n : ℕ). bit_or n 0x10) e ∙ bit_or-flag disconnect a d p x)
    ∙ ground arith
set_handlers-mask (packet ∷ hs) m a d p x e =
    set_handlers-mask hs (set_handler m packet) a d true x
      (ap (λ (n : ℕ). bit_or n 0x100) e ∙ bit_or-flag packet a d p x)
    ∙ ground arith

mask-is_ready : (a d p x : Bool) → (mask a d p x == 0x0111) ≡ (not x && a && d && p)
mask-is_ready a d p x = ground arith

-- A manager whose handlers have been set in any order, any number of times, starts exactly if its
-- port was made and each of the three handlers has been set.
pub run-set_handlers :
    (iocp associated junk : Bool) (heap : ℕ → Session) (recycled : Data) (hs : List Handler)
    (num_thread : ℕ)
    → (run num_thread (set_handlers (new_manager iocp associated junk heap recycled) hs)).0
      ≡ (iocp && has accept hs && has disconnect hs && has packet hs)
unfolding run new_manager
run-set_handlers iocp associated junk heap recycled hs num_thread =
    let m = new_manager iocp associated junk heap recycled in
    let flags : (set_handlers m hs).is_inited_all
        ≡ mask (has accept hs) (has disconnect hs) (has packet hs) (not iocp) =
      set_handlers-mask hs m false false false (not iocp) (ground arith) in
    ground
      (arith, flags, mask-is_ready (has accept hs) (has disconnect hs) (has packet hs) (not iocp))
