-- ===== src/State/Undo.antt =====
-- A state extends another one if its journal leads back to it.
use silkworm.Common.{
  ◌-◌, ◌≡◌, refl, sym, ◌∙◌, ap, List, [], ◌∷◌, ◌++◌, append-nil, append_assoc, length,
  length-append, drop, drop_append, resize, resize_append, arith,
}
use silkworm.State.Types.{Log, new_log, Delta, create, IntraBlockState}
use silkworm.State.Journal.{revert, revert_loop, take_snapshot, revert_to_snapshot}
use silkworm.State.View.{SameView, SameView-refl, SameView-trans}

-- All of a list of deltas, newest first.
abbrev pub undo : List Delta → IntraBlockState → IntraBlockState
undo [] s = s
undo (d ∷ ds) s = undo ds (revert d s)

undo-append : (ds es : List Delta) (s : IntraBlockState) → undo (ds ++ es) s ≡ undo es (undo ds s)
undo-append [] es s = refl
undo-append (d ∷ ds) es s = undo-append ds es (revert d s)

revert_loop-undo :
    (ds es : List Delta) (s : IntraBlockState) → revert_loop (length ds) (ds ++ es) s ≡ undo ds s
unfolding revert_loop
revert_loop-undo [] es s = refl
revert_loop-undo (d ∷ ds) es s = unfold revert in revert_loop-undo ds es (revert d s)

logs-revert : (d : Delta) (s : IntraBlockState) → (revert d s).logs ≡ s.logs
unfolding revert
logs-revert (create address) s = refl
logs-revert _ s = refl

logs-undo : (ds : List Delta) (s : IntraBlockState) → (undo ds s).logs ≡ s.logs
logs-undo [] s = refl
logs-undo (d ∷ ds) s = logs-undo ds (revert d s) ∙ logs-revert d s

pub record Extends (s t : IntraBlockState) : Type 0 where
  pub deltas : List Delta
  pub journal : t.journal ≡ deltas ++ s.journal
  pub new_logs : List Log
  pub logs : t.logs ≡ s.logs ++ new_logs
  pub undone : (u : IntraBlockState) → SameView u t → SameView (undo deltas u) s

-- A step that changes caches, logs and the refund only.
pub Extends-same :
    {s t : IntraBlockState} (new : List Log)
    → t.journal ≡ s.journal
    → t.logs ≡ s.logs ++ new
    → SameView t s
    → Extends s t
Extends-same new j l h = record {
  deltas = [];
  journal = j;
  new_logs = new;
  logs = l;
  undone = λ u g. SameView-trans g h;
}

pub Extends-refl : (s : IntraBlockState) → Extends s s
Extends-refl s = Extends-same [] refl (sym (append-nil s.logs)) (SameView-refl s)

-- A step with one delta, or with two.
pub Extends-delta :
    {s t : IntraBlockState} (ds : List Delta)
    → t.journal ≡ ds ++ s.journal
    → t.logs ≡ s.logs
    → ((u : IntraBlockState) → SameView u t → SameView (undo ds u) s)
    → Extends s t
Extends-delta {s} ds j l h = record {
  deltas = ds;
  journal = j;
  new_logs = [];
  logs = l ∙ sym (append-nil s.logs);
  undone = h;
}

pub Extends-trans : {s t u : IntraBlockState} → Extends s t → Extends t u → Extends s u
Extends-trans {s} {t} {u} e f = record {
  deltas = f.deltas ++ e.deltas;
  journal =
      f.journal
      ∙ ap (λ j. f.deltas ++ j) e.journal
      ∙ sym (append_assoc f.deltas e.deltas s.journal);
  new_logs = e.new_logs ++ f.new_logs;
  logs = f.logs ∙ ap (λ l. l ++ f.new_logs) e.logs ∙ append_assoc s.logs e.new_logs f.new_logs;
  undone = λ w h. rw (undo-append f.deltas e.deltas w) (e.undone _ (f.undone w h));
}

-- What a revert leaves, where the journal leads back.
pub record Restored (s t : IntraBlockState) : Type 0 where
  pub view : SameView t s
  pub journal : t.journal ≡ s.journal
  pub logs : t.logs ≡ s.logs
  pub refund : t.refund ≡ s.refund

module _ (js ds es : List Delta) (e : js ≡ ds ++ es) where
  rounds_left : length js - length es ≡ length ds
  rounds_left = rw e (omega (arith, length-append ds es))

  revert_all : (s : IntraBlockState) → revert_loop (length js - length es) js s ≡ undo ds s
  revert_all s = rw rounds_left (rw e (revert_loop-undo ds es s))

  journal_left : drop (length js - length es) js ≡ es
  journal_left = rw rounds_left (rw e (drop_append ds es))

pub Extends-Restored :
    {s t : IntraBlockState} → Extends s t → Restored s (revert_to_snapshot (take_snapshot s) t)
unfolding revert_to_snapshot take_snapshot
Extends-Restored {s} {t} e =
    let reverted = revert_all t.journal e.deltas s.journal e.journal t in
    let h : SameView (revert_loop (length t.journal - length s.journal) t.journal t) s =
      rw reverted (e.undone t (SameView-refl t)) in
    record {
      view = record {
        db = h.db;
        objects = h.objects;
        slots = h.slots;
        suicides = h.suicides;
        touches = h.touches;
        addresses = h.addresses;
        keys = h.keys;
      };
      journal = journal_left t.journal e.deltas s.journal e.journal;
      logs =
          ap (λ (l : List Log). resize (length s.logs) new_log l)
            (ap (λ (u : IntraBlockState). u.logs) reverted ∙ logs-undo e.deltas t ∙ e.logs)
          ∙ resize_append new_log s.logs e.new_logs;
      refund = refl;
    }
