-- ===== src/Binding/Broker/Kept.antt =====
-- The properties of the dictionaries stay those that frames and requests to set make of them.
use agl_can_binder.Base.{
  ℕ, zero, suc, ◌≡◌, Bool, refl, some, List, [], ◌∷◌, All, get_elem?, set, arith,
}
use agl_can_binder.CanidInfo.Types.{Strings, CanFrame, Property}
use agl_can_binder.CanidSearch.Tree.Laws.{IsSorted, compare-IsOrder}
use agl_can_binder.CanidSearch.Dict.{Dict, PropertyRef}
use agl_can_binder.CanidSearch.Dict.Every.{Every}
use agl_can_binder.SocketcanRaw.{Socket}
use agl_can_binder.CanSignalEvent.Parse.Added.{update_canid-Every}
use agl_can_binder.CanSignalEvent.Send.{with_value, can_signal_send}
use agl_can_binder.CanSignalEvent.Send.Sound.{can_signal_send-writes}
use agl_can_binder.Binding.Broker.{Known, own, written}

module _ (Q : Property → Type 0) where
  All-get : (l : List Property) → ((i : ℕ) (p : Property) → get_elem? l i ≡ some p → Q p) → All Q l
  All-get [] h = tt
  All-get (p ∷ l) h = (h 0 p refl, All-get l (λ i. h (suc i)))

  -- The property at a position is in Q, and so are all after a write there.
  All-set :
      (l : List Property) (i : ℕ) (p x : Property)
      → get_elem? l i ≡ some p
      → (Q p → Q x)
      → All Q l
      → All Q (set l i x)
  All-set [] i p x there f all = tt
  All-set (y ∷ l) zero p x there f all =
      let same : y ≡ p = ground arith in (f (rw same at all.0), all.1)
  All-set (y ∷ l) (suc i) p x there f all = (all.0, All-set l i p x there f all.1)

pub Every-Known : (strings : Strings) (d : Dict) → Every (Known strings d) d
Every-Known strings d c info there =
    All-get (Known strings d) info.property (λ i p at_index. own c info i p there at_index)

-- A value that is sent is written to a property.
pub Known-can_signal_send :
    (strings : Strings) (d0 : Dict) (sends : CanFrame → Bool) (prop : PropertyRef) (v : ℕ)
    (d d' : Dict) (sock sock' : Socket)
    → IsSorted compare-IsOrder d.canid_root
    → Every (Known strings d0) d
    → can_signal_send strings sends prop v d sock ≡ some (d', sock')
    → Every (Known strings d0) d'
Known-can_signal_send strings d0 sends prop v d d' sock sock' sorted every h =
    let (info, p, x, bytes, known, there, dict, fd, filters) =
      can_signal_send-writes strings sends prop v d d' sock sock' h in
    let head = record p.head { cur_value = x } in
    rw dict (
      update_canid-Every (Known strings d0) prop.canid (with_value prop.index p head bytes) d sorted
        every
        λ other found.
          let same : other ≡ info = ground (arith, known, found) in
          rw same (
            All-set (Known strings d0) info.property prop.index p (record p { head = head }) there
              (written p x) (every prop.canid info known)))
