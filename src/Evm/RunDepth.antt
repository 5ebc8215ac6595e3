-- ===== src/Evm/RunDepth.antt =====
-- The call depth of a transaction in core/silkworm/execution/evm.cpp: with the limit that an interpreter
-- keeps, the levels of the model are enough.
use silkworm.Common.{ℕ, zero, suc, ◌+◌, ◌≤◌, ◌<◌, ◌≡◌, refl, arith, Option, none, some, Bytes}
use silkworm.Types.{Transaction, BlockHeader}
use silkworm.Chain.Config.{ChainConfig}
use silkworm.Evm.Types.{
  Message, Outcome, Behaviour, finish, account_exists, access_account, access_storage, get_storage,
  set_storage, get_balance, get_code_size, get_code_hash, copy_code, selfdestruct, call_host,
  get_tx_context, get_block_hash, emit_log, Evm,
}
use silkworm.Evm.Steps.{Externals}
use silkworm.Evm.Run.{
  evm_revision, run_host, nested_call, message_of, call_levels, start, execute_levels, execute,
}
use silkworm.Evm.Depth.{CallsBelow, LimitsDepth, call-agree, create-agree, call_or_create-agree}

module _ (ext : Externals) (header : BlockHeader) (config : ChainConfig) (txn : Transaction) where
  -- Two ways to serve nested calls that agree one level deeper.
  run_host-agree :
      (nested nested' : Message → Evm → Outcome × Evm) (depth : ℕ)
      → ((m : Message) (e : Evm) → depth < 1024 → m.depth ≡ depth + 1 → nested m e ≡ nested' m e)
      → (b : Behaviour) (e : Evm) → CallsBelow depth b
      → run_host ext header config txn nested b e ≡ run_host ext header config txn nested' b e
  unfolding run_host CallsBelow
  run_host-agree n n' d same (finish res) e h = refl
  run_host-agree n n' d same (account_exists a next) e h =
      run_host-agree n n' d same (next _) _ (h _)
  run_host-agree n n' d same (access_account a next) e h =
      run_host-agree n n' d same (next _) _ (h _)
  run_host-agree n n' d same (access_storage a key next) e h =
      run_host-agree n n' d same (next _) _ (h _)
  run_host-agree n n' d same (get_storage a key next) e h =
      run_host-agree n n' d same (next _) _ (h _)
  run_host-agree n n' d same (set_storage a key value next) e h =
      run_host-agree n n' d same (next _) _ (h _)
  run_host-agree n n' d same (get_balance a next) e h = run_host-agree n n' d same (next _) _ (h _)
  run_host-agree n n' d same (get_code_size a next) e h =
      run_host-agree n n' d same (next _) _ (h _)
  run_host-agree n n' d same (get_code_hash a next) e h =
      run_host-agree n n' d same (next _) _ (h _)
  run_host-agree n n' d same (copy_code a c k next) e h =
      run_host-agree n n' d same (next _) _ (h _)
  run_host-agree n n' d same (selfdestruct a b next) e h = run_host-agree n n' d same next _ h
  run_host-agree n n' d same (call_host m next) e h =
      rw (same m e h.0 h.1)
        (run_host-agree n n' d same (next (n' m e).0) (n' m e).1 (h.2 (n' m e).0))
  run_host-agree n n' d same (get_tx_context next) e h = run_host-agree n n' d same (next _) _ (h _)
  run_host-agree n n' d same (get_block_hash k next) e h =
      run_host-agree n n' d same (next _) _ (h _)
  run_host-agree n n' d same (emit_log log next) e h = run_host-agree n n' d same next _ h

  -- Levels that reach down to 1024 all give the same.
  nested_call-levels :
      LimitsDepth ext (evm_revision ext header config txn)
      → (levels levels' : ℕ) (m : Message) (e : Evm) → m.depth ≤ 1024
      → 1024 < levels + m.depth
      → 1024 < levels' + m.depth
      → nested_call ext header config txn levels m e ≡ nested_call ext header config txn levels' m e
  unfolding nested_call
  nested_call-levels limits zero levels' m e above enough enough' =
      absurd (omega (arith, above, enough))
  nested_call-levels limits (suc levels) zero m e above enough enough' =
      absurd (omega (arith, above, enough'))
  nested_call-levels limits (suc levels) (suc levels') m e above enough enough' =
      let rev = evm_revision ext header config txn in
      let n = nested_call ext header config txn levels in
      let n' = nested_call ext header config txn levels' in
      call_or_create-agree ext rev (run_host ext header config txn n)
        (run_host ext header config txn n') m.depth
        (λ k code f here.
          run_host-agree n n' m.depth
            (λ l g inside deeper.
              nested_call-levels limits levels levels' l g (omega (arith, inside, deeper))
                (omega (arith, deeper, enough)) (omega (arith, deeper, enough')))
            (ext.interpret rev k code) f (rw⁻¹ here (limits k code)))
        m e refl

  start-agree :
      (run run' : Behaviour → Evm → Outcome × Evm) (to : Option ℕ) (m : Message) (e : Evm)
      → ((k : Message) (code : Bytes) (f : Evm)
          → k.depth ≡ m.depth
          → run (ext.interpret (evm_revision ext header config txn) k code) f
            ≡ run' (ext.interpret (evm_revision ext header config txn) k code) f)
      → start ext header config txn to run m e ≡ start ext header config txn to run' m e
  unfolding start
  start-agree run run' none m e agree =
      create-agree ext (evm_revision ext header config txn) run run' m.depth agree m e refl
  start-agree run run' (some to) m e agree =
      call-agree ext (evm_revision ext header config txn) run run' m.depth agree m e refl

  -- The levels of calls are enough: with any higher number of them a transaction has the same result
  -- and the same state, if the interpreter calls one level deeper each time and not at all at level
  -- 1024.
  pub execute-levels :
      LimitsDepth ext (evm_revision ext header config txn)
      → (levels gas : ℕ) (e : Evm) → call_levels ≤ levels
      → execute_levels ext header config txn levels gas e ≡ execute ext header config txn gas e
  unfolding execute execute_levels
  execute-levels limits levels gas e enough =
      let rev = evm_revision ext header config txn in
      let n = nested_call ext header config txn levels in
      let n' = nested_call ext header config txn call_levels in
      start-agree (run_host ext header config txn n) (run_host ext header config txn n') txn.to
        (message_of ext header config txn gas) e
        (λ k code f here.
          run_host-agree n n' 0
            (λ l g inside deeper.
              nested_call-levels limits levels call_levels l g (omega (arith, deeper))
                (omega (arith, deeper, enough)) (omega (arith, deeper)))
            (ext.interpret rev k code) f (rw⁻¹ here (limits k code)))
