-- ===== src/CanJson/Load/Known.antt =====
-- Loading a file changes no CAN-ID that is known already.
use Prim.Native.Nat.{compare}
use agl_can_binder.Base.{
  ℕ, ◌+◌, ◌≡◌, ◌≢◌, refl, Bool, true, false, if◌then◌else◌, not, ◌||◌, Option, some, List, CString,
  ℤ, arith, Option-cases, Bool-cases, inl, inr, bit_and, ◌==◌,
}
use agl_can_binder.CanidInfo.Types.{CanidInfo, can_kind_send}
use agl_can_binder.CanidSearch.Tree.{tfind}
use agl_can_binder.CanidSearch.Tree.Laws.{compare-IsOrder, tfind-insert}
use agl_can_binder.CanidSearch.Dict.{Dict, get_canid_dict, requested, add_canid_dict, update_canid}
use agl_can_binder.CanidSearch.Dict.WellFormed.{IsWellFormed}
use agl_can_binder.CanidSearch.Dict.AddCanid.{
  add_canid_dict-known, add_canid_dict-refused, add_canid_dict-granted, add_canid_dict-IsWellFormed,
  root_same, added,
}
use agl_can_binder.SocketcanRaw.{is_negative}
use agl_can_binder.CanSignalEvent.Parse.Laws.{get_canid_dict-update_canid}
use agl_can_binder.CanSignalEvent.Send.{TimerAnswers, add_send_timer}
use agl_can_binder.CanJson.JsonC.{JsonC}
use agl_can_binder.CanJson.Run.{done, >>=-eq-done}
use agl_can_binder.CanJson.Member.Laws.{HasKeys}
use agl_can_binder.CanJson.Load.{Loader, add_property_mapping, start_timer, add_caninfo}
use agl_can_binder.CanJson.Load.File.{can_define_init}
use agl_can_binder.CanJson.Load.Keeps.{Keeps, parse_caninfo-Keeps, can_define_init-Keeps}
use agl_can_binder.CanJson.Load.Ready.{IsReady, requested-IsReady}
use agl_can_binder.CanJson.Load.Laws.{add_caninfo-IsReady}

unfailed : (b : Bool) (err : ℕ) → (if b then err + 1 else err) ≡ 0 → b ≡ false
unfailed true err h = absurd (omega (arith, h))
unfailed false err h = refl

-- A CAN-ID that is there stays; one that is added with success is another.
add_canid_dict_keeps :
    (memory : ℕ → Bool) (info known : CanidInfo) (c : ℕ) (d : Dict)
    → IsWellFormed d
    → get_canid_dict c d ≡ some known
    → (get_canid_dict c (add_canid_dict memory info d).0 ≡ some known)
      × (is_negative (add_canid_dict memory info d).1 ≡ false → c ≢ info.canid)
unfolding get_canid_dict
add_canid_dict_keeps memory info known c d wf there =
    elim (Option-cases (tfind compare info.canid d.canid_root)) [
      | inr (other, e) ↦ rw (add_canid_dict-known memory info d other e) (there, λ h. absurd (cc))
      | inl e ↦ elim (Bool-cases (memory d.requests)) [
        | inr refused ↦
            rw (add_canid_dict-refused memory info d e refused) (there, λ h. absurd (cc))
        | inl granted ↦
            let found =
              tfind-insert compare-IsOrder info.canid c
                (record info { property = (added memory info d).1 }) d.canid_root wf.canids_in_order
                e in
            let differs : c ≢ info.canid = λ same. ground (arith, e, rw same at there) in
            let other = compare-IsOrder.same_key c info.canid in
            rw (add_canid_dict-granted memory info d e granted) (
              rw (root_same memory info d wf e)
                (ground (arith, found, there, differs, other), λ h. differs))
      ]
    ]

module _ {J : Type 0} (json : JsonC J) (keys : HasKeys json) (memory : ℕ → Bool)
    (answers : ℕ → TimerAnswers) (c : ℕ) (known : CanidInfo) where
  -- The CAN-ID is there, in dictionaries that are ready.
  record Keeping (s : Loader) : Type 0 where
    ready : IsReady s
    there : get_canid_dict c s.dict ≡ some known

  -- The timer of another CAN-ID, if there was no error.
  start_timer_keeps :
      (kind canid err : ℕ) (s s' : Loader) (n : ℕ)
      → IsWellFormed s.dict
      → (err ≡ 0 → c ≢ canid)
      → get_canid_dict c s.dict ≡ some known
      → start_timer json memory answers kind canid err s ≡ done (s', n)
      → get_canid_dict c s'.dict ≡ some known
  unfolding start_timer
  start_timer_keeps kind canid err s s' n wf other there h =
      elim (Option-cases (get_canid_dict canid s.dict)) [
        | inl gone ↦ let same : s' ≡ s = ground (arith, gone) in rw same there
        | inr (info, found) ↦
            elim (Bool-cases (not (err == 0) || bit_and kind can_kind_send == 0)) [
              | inl idle ↦ let same : s' ≡ s = ground (arith, idle) in rw same there
              | inr sends ↦
                  let timer = add_send_timer (answers canid) info s.timers s.watched in
                  let f = λ (i : CanidInfo). record i { timerfd = timer.0.timerfd } in
                  let same : s' ≡ record s {
                    dict = update_canid canid f s.dict;
                    timers = timer.1;
                    watched = timer.2;
                  } =
                    ground (arith, sends, found) in
                  let differs : c ≢ canid = other (ground arith) in
                  let kept = get_canid_dict-update_canid c canid f s.dict wf.canids_in_order in
                  rw same (ground (arith, kept, there, differs))
            ]
      ]

  add_caninfo-Keeping :
      (kind : ℕ) (info : CanidInfo) (l : List (Option J))
      → Keeps Keeping (add_caninfo json memory answers kind info l)
  unfolding add_caninfo
  add_caninfo-Keeping kind info l s s' n r h =
      let ((ps, strings', err), mapped, later) =
        >>=-eq-done (add_property_mapping json kind l s.strings) _ h in
      let info' : CanidInfo = record info { property = ps } in
      let (there, differs) =
        add_canid_dict_keeps memory info' known c s.dict r.ready.sound.well_formed r.there in
      record {
        ready = add_caninfo-IsReady json keys memory answers kind info l s s' n r.ready h;
        there =
            start_timer_keeps kind info.canid _ _ s' n
              (add_canid_dict-IsWellFormed memory info' s.dict r.ready.sound.well_formed)
              (λ ok. differs (unfailed _ _ ok)) there later;
      }

  requested-Keeping : (s : Loader) → Keeping s → Keeping (record s { dict = requested s.dict })
  unfolding get_canid_dict
  requested-Keeping s r = record { ready = requested-IsReady s r.ready; there = r.there }

  -- A CAN-ID that the dictionary has already stays as it is, whatever the file defines, if no object
  -- has a key twice and loading is defined, in sound dictionaries with entries as a file may define
  -- them: the first definition counts.
  pub can_define_init_keeps :
      (strtol : CString → ℤ) (fname : Option CString) (s s' : Loader) (n : ℕ)
      → IsReady s
      → get_canid_dict c s.dict ≡ some known
      → can_define_init json memory answers strtol fname s ≡ done (s', n)
      → get_canid_dict c s'.dict ≡ some known
  can_define_init_keeps strtol fname s s' n ready there h =
      (can_define_init-Keeps Keeping json memory answers strtol
        (parse_caninfo-Keeps Keeping json memory answers requested-Keeping add_caninfo-Keeping)
        fname s s' n (record { ready = ready; there = there }) h).there
