-- ===== src/Evm/Creation.antt =====
-- A creation that fails (EVM::create of core/silkworm/execution/evm.cpp), compared with the state before
-- it.
use silkworm.Common.{
  ℕ, ◌≡◌, ◌≤◌, refl, sym, ◌∙◌, ap, Bool, true, false, ◌||◌, some, ◌==◌, if◌then◌else◌, contains,
  add, contains-add, List, arith,
}
use silkworm.Account.{Account, empty_hash}
use silkworm.Types.{Transaction, BlockHeader}
use silkworm.State.Types.{IntraBlockState}
use silkworm.State.Journal.{accessed_keys_at}
use silkworm.State.View.{object_view, SameView-symm}
use silkworm.State.Readers.{SameView-SameReads}
use silkworm.State.Reading.{get_storage-eq-view}
use silkworm.State.Undo.{Restored}
use silkworm.State.Accounts.{
  get_object, set_nonce, with_current, exists, get_balance, get_nonce, get_code_hash,
  ripemd_address,
}
use silkworm.State.Contracts.{access_account}
use silkworm.State.Slots.{get_storage, get_current_storage, get_original_storage}
use silkworm.State.Caching.{get_object-eq-view}
use silkworm.Chain.Words.{add_word}
use silkworm.Chain.Config.{ChainConfig}
use silkworm.Evm.Types.{Message, is_success, is_revert, Evm}
use silkworm.Evm.Steps.{Externals, begin_create, new_address}
use silkworm.Evm.Calls.{create}
use silkworm.Evm.Failure.{
  running, begun_create, create-FailsClean, Restored-trans, get_balance-Restored,
  get_nonce-Restored, rev,
}
use silkworm.Evm.RunJournal.{running-Journaled}
use silkworm.State.Nonces.{
  NonceSet, NonceSet-view, access_account-NonceSet, set_nonce-SameRest, live_object,
  set_nonce_known, same_part, new_nonce,
}

-- What a creation leaves that fails: the nonce of the creator has grown and the new address counts as
-- accessed. Accounts, storage, suicides, accesses, logs and the refund counter are else as they were;
-- of touches, that of the RIPEMD-160 account may stay.
pub record OnlyBegun (sender contract_addr : ℕ) (s t : IntraBlockState) : Type 0 where
  pub existing : (a : ℕ) → (exists a t).0 ≡ (exists a s).0
  pub nonces :
      (a : ℕ)
      → (get_nonce a t).0
        ≡ (if sender == a then add_word 64 (get_nonce sender s).0 1 else (get_nonce a s).0)
  pub balances : (a : ℕ) → (get_balance a t).0 ≡ (get_balance a s).0
  pub code_hashes : (a : ℕ) → (get_code_hash a t).0 ≡ (get_code_hash a s).0
  pub current : (a key : ℕ) → (get_current_storage a key t).0 ≡ (get_current_storage a key s).0
  pub original : (a key : ℕ) → (get_original_storage a key t).0 ≡ (get_original_storage a key s).0
  pub addresses :
      (a : ℕ)
      → contains a t.accessed_addresses ≡ (contract_addr == a || contains a s.accessed_addresses)
  pub keys : (a key : ℕ) → contains key (accessed_keys_at t a) ≡ contains key (accessed_keys_at s a)
  pub suicides : (a : ℕ) → contains a t.self_destructs ≡ contains a s.self_destructs
  pub touches :
      (a : ℕ) → (a == ripemd_address) ≡ false → contains a t.touched ≡ contains a s.touched
  pub logs : t.logs ≡ s.logs
  pub refund : t.refund ≡ s.refund

-- The start of a creation, whose sender exists.
module _ (ext : Externals) (rev : ℕ) (m : Message) (e : Evm)
    (here : (exists m.sender e.state).0 ≡ true) where
  abbrev nonce : ℕ
  nonce = (get_nonce m.sender e.state).0

  abbrev contract_addr : ℕ
  contract_addr = new_address ext rev m nonce

  abbrev looked : ℕ × IntraBlockState
  looked = get_nonce m.sender (get_balance m.sender e.state).1

  looked-Restored : Restored e.state looked.1
  looked-Restored =
      Restored-trans (get_balance-Restored m.sender e.state)
        (get_nonce-Restored m.sender (get_balance m.sender e.state).1)

  looked_nonce : looked.0 ≡ nonce
  looked_nonce = (SameView-SameReads (get_balance-Restored m.sender e.state).view m.sender 0).nonce

  begun_here : (begun_create ext rev m e).0 ≡ contract_addr
  unfolding begin_create
  begun_here = ap (new_address ext rev m) looked_nonce

  abbrev grown : IntraBlockState
  grown = set_nonce m.sender (add_word 64 looked.0 1) looked.1

  begun-NonceSet : NonceSet m.sender (add_word 64 looked.0 1) looked.1 (begun_create ext rev m e).1
  unfolding begin_create exists
  begun-NonceSet =
      let (obj, account, seen, live) = live_object (get_object m.sender e.state).0 here in
      let known : object_view looked.1 m.sender ≡ some obj =
        looked-Restored.view.objects m.sender ∙ sym (get_object-eq-view m.sender e.state) ∙ seen in
      access_account-NonceSet (new_address ext rev m looked.0) grown
        (set_nonce_known m.sender (add_word 64 looked.0 1) looked.1 obj account known live)

  -- What comes after the start and leads back to it.
  module _ (t : IntraBlockState) (back : Restored (begun_create ext rev m e).1 t) where
    after-NonceSet : NonceSet m.sender (add_word 64 looked.0 1) e.state t
    after-NonceSet = NonceSet-view looked-Restored.view (SameView-symm back.view) begun-NonceSet

    after_addresses :
        (a : ℕ)
        → contains a t.accessed_addresses
          ≡ (contract_addr == a || contains a e.state.accessed_addresses)
    unfolding begin_create access_account
    after_addresses a =
        let rest = set_nonce-SameRest m.sender (add_word 64 looked.0 1) looked.1 in
        let address = new_address ext rev m looked.0 in
        back.view.addresses a
        ∙ ap (contains a) {y = add address grown.accessed_addresses} (ground arith)
        ∙ contains-add address a grown.accessed_addresses
        ∙ ap (λ (l : List ℕ). address == a || contains a l) rest.addresses
        ∙ ap (λ (b : Bool). address == a || b) (looked-Restored.view.addresses a)
        ∙ ap (λ (n : ℕ). new_address ext rev m n == a || contains a e.state.accessed_addresses)
            looked_nonce

    reader :
        {A : Type 0} (f : Account → A) (d : A)
        → (f (record after-NonceSet.account { nonce = add_word 64 looked.0 1 })
            ≡ f after-NonceSet.account)
        → (a : ℕ) → with_current f d (get_object a t).0 ≡ with_current f d (get_object a e.state).0
    reader f d same a =
        ap (with_current f d) (get_object-eq-view a t)
        ∙ same_part after-NonceSet f d same a
        ∙ ap (with_current f d) (sym (get_object-eq-view a e.state))

    slot_read :
        (a key : ℕ) (original : Bool)
        → (get_storage a key original t).0 ≡ (get_storage a key original e.state).0
    slot_read a key original =
        get_storage-eq-view a key original t
        ∙ after-NonceSet.slots a key original
        ∙ sym (get_storage-eq-view a key original e.state)

    after_nonce :
        (a : ℕ)
        → (get_nonce a t).0
          ≡ (if m.sender == a then add_word 64 nonce 1 else (get_nonce a e.state).0)
    unfolding get_nonce
    after_nonce a =
        let read = with_current (λ account. account.nonce) 0 in
        ap read (get_object-eq-view a t)
        ∙ new_nonce after-NonceSet a
        ∙ ap (λ (n : ℕ). if m.sender == a then add_word 64 n 1 else read (object_view e.state a))
            looked_nonce
        ∙ ap (λ (n : ℕ). if m.sender == a then add_word 64 nonce 1 else n)
            (ap read (sym (get_object-eq-view a e.state)))

    pub after-OnlyBegun : OnlyBegun m.sender contract_addr e.state t
    unfolding exists get_balance get_code_hash get_current_storage get_original_storage begin_create
        access_account
    after-OnlyBegun =
        let rest = set_nonce-SameRest m.sender (add_word 64 looked.0 1) looked.1 in
        let before = looked-Restored in
        record {
          existing = reader (λ account. true) false refl;
          nonces = after_nonce;
          balances = reader (λ account. account.balance) 0 refl;
          code_hashes = reader (λ account. account.code_hash) empty_hash refl;
          current = λ a key. slot_read a key false;
          original = λ a key. slot_read a key true;
          addresses = after_addresses;
          keys = λ a key.
              back.view.keys a key
              ∙ ap (contains key) {y = accessed_keys_at looked.1 a} (ground (arith, rest.keys a))
              ∙ before.view.keys a key;
          suicides = λ a.
              back.view.suicides a
              ∙ ap (contains a) {y = looked.1.self_destructs} (ground (arith, rest.suicides))
              ∙ before.view.suicides a;
          touches = λ a other.
              back.view.touches a other
              ∙ ap (contains a) {y = looked.1.touched} (ground (arith, rest.touches))
              ∙ before.view.touches a other;
          logs = back.logs ∙ ground (arith, rest.logs) ∙ before.logs;
          refund = back.refund ∙ ground (arith, rest.refund) ∙ before.refund;
        }

module _ (ext : Externals) (header : BlockHeader) (config : ChainConfig) (txn : Transaction)
    (levels : ℕ) where
  -- A creation whose sender exists and can pay for it, and that does not succeed, leaves of what it
  -- did that the sender's nonce is one more (as a 64-bit number) and that the new address, which comes
  -- from the old nonce, counts as accessed. The existence, nonce, balance and code hash of all
  -- accounts, the current and original value of all slots, the accessed addresses and keys, the
  -- suicides, the touches but for the RIPEMD-160 account's, the logs and the refund counter are else as
  -- before the creation. Unless it fails by REVERT, no gas is left.
  pub failed_create-OnlyBegun :
      (m : Message) (e : Evm)
      → (exists m.sender e.state).0 ≡ true
      → m.value ≤ (get_balance m.sender e.state).0
      → is_success
          (create ext
            (rev ext header config txn levels)
            (running ext header config txn levels)
            m
            e).0.status
        ≡ false
      → OnlyBegun m.sender
          (new_address ext (rev ext header config txn levels) m (get_nonce m.sender e.state).0)
          e.state
          (create ext
            (rev ext header config txn levels)
            (running ext header config txn levels)
            m
            e).1.state
        × (is_revert
                (create ext
                  (rev ext header config txn levels)
                  (running ext header config txn levels)
                  m
                  e).0.status
              ≡ false
            → (create ext
                (rev ext header config txn levels)
                (running ext header config txn levels)
                m
                e).0.gas_left
              ≡ 0)
  failed_create-OnlyBegun m e here funded failed =
      let revision = rev ext header config txn levels in
      let clean =
        create-FailsClean ext revision (running ext header config txn levels)
          (running-Journaled ext header config txn levels) m e funded failed in
      (after-OnlyBegun ext revision m e here _ clean.0, clean.1)
