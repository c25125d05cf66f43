-- ===== src/CanJson/Load/Laws.antt =====
-- What the CAN definition file can bring into the dictionaries.
use agl_can_binder.Base.{
  ℕ, ◌≡◌, Bool, not, ◌||◌, Option, List, CString, ℤ, arith, Option-cases, Bool-cases, inl, inr,
  bit_and, ◌==◌,
}
use agl_can_binder.CanidInfo.Types.{CanidInfo, can_kind_send}
use agl_can_binder.CanidSearch.Dict.{get_canid_dict, add_canid_dict, update_canid}
use agl_can_binder.CanidSearch.Dict.Every.{Every-map, add_canid_dict-Every}
use agl_can_binder.CanSignalEvent.Parse.Sound.{update_canid-IsSound}
use agl_can_binder.CanSignalEvent.Parse.Added.{add_canid_dict-IsSound, update_canid-Every}
use agl_can_binder.CanSignalEvent.Send.{TimerAnswers, add_send_timer}
use agl_can_binder.CanJson.JsonC.{JsonC}
use agl_can_binder.CanJson.Run.{done, >>=-eq-done}
use agl_can_binder.CanJson.Member.Laws.{HasKeys}
use agl_can_binder.CanJson.Load.{
  Loader, add_property_mapping, start_timer, add_caninfo, parse_caninfo,
}
use agl_can_binder.CanJson.Load.File.{can_define_init}
use agl_can_binder.CanJson.Load.Keeps.{Keeps, parse_caninfo-Keeps, can_define_init-Keeps}
use agl_can_binder.CanJson.Load.Ready.{
  PropertyLoaded, PropertyLoaded-Grows, PropertyLoaded-Extends, IsReady, requested-IsReady,
  mapping-IsNew,
}

module _ {J : Type 0} (json : JsonC J) (keys : HasKeys json) where
  -- A write of a timer's descriptor.
  timed-IsReady :
      (s : Loader) (canid : ℕ) (fd : ℤ)
      → IsReady s
      → IsReady (record s {
        dict = update_canid canid (λ (i : CanidInfo). record i { timerfd = fd }) s.dict;
      })
  timed-IsReady s canid fd r =
      let f = λ (i : CanidInfo). record i { timerfd = fd } in
      record {
        sound =
            update_canid-IsSound canid f s.dict r.sound
              (λ info there. (λ i n h. h, r.sound.applied canid info there));
        loaded =
            update_canid-Every (PropertyLoaded s.strings) canid f s.dict
              r.sound.well_formed.canids_in_order r.loaded
              (λ info there. r.loaded canid info there);
      }

  module _ (memory : ℕ → Bool) (answers : ℕ → TimerAnswers) where
    start_timer-IsReady :
        (kind canid err : ℕ) → Keeps IsReady (start_timer json memory answers kind canid err)
    unfolding start_timer
    start_timer-IsReady kind canid err s s' n r h =
        elim (Option-cases (get_canid_dict canid s.dict)) [
          | inl gone ↦ let same : s' ≡ s = ground (arith, gone) in rw same r
          | inr (info, there) ↦
              elim (Bool-cases (not (err == 0) || bit_and kind can_kind_send == 0)) [
                | inl idle ↦ let same : s' ≡ s = ground (arith, idle) in rw same r
                | inr sends ↦
                    let timer = add_send_timer (answers canid) info s.timers s.watched in
                    let timed = timed-IsReady s canid timer.0.timerfd r in
                    let same : s' ≡ record s {
                      dict =
                          update_canid canid
                            (λ (i : CanidInfo). record i { timerfd = timer.0.timerfd }) s.dict;
                      timers = timer.1;
                      watched = timer.2;
                    } =
                      ground (arith, sends, there) in
                    rw same (record { sound = timed.sound; loaded = timed.loaded })
              ]
        ]

    pub add_caninfo-IsReady :
        (kind : ℕ) (info : CanidInfo) (l : List (Option J))
        → Keeps IsReady (add_caninfo json memory answers kind info l)
    unfolding add_caninfo
    add_caninfo-IsReady kind info l s s' n r h =
        let ((ps, strings', err), mapped, later) =
          >>=-eq-done (add_property_mapping json kind l s.strings) _ h in
        let (grows, new) = mapping-IsNew json keys kind l s.strings strings' ps err mapped in
        let info' : CanidInfo = record info { property = ps } in
        let (d', ret) = add_canid_dict memory info' s.dict in
        let here : IsReady (record s { dict = d'; strings = strings' }) = record {
          sound = add_canid_dict-IsSound memory info' s.dict r.sound new.1;
          loaded =
              add_canid_dict-Every (PropertyLoaded strings') (PropertyLoaded-Extends strings')
                memory info' s.dict r.sound.well_formed
                (Every-map (PropertyLoaded s.strings) (PropertyLoaded strings') s.dict
                  (PropertyLoaded-Grows s.strings strings' grows) r.loaded)
                new.0;
        } in
        start_timer-IsReady kind info.canid _ _ s' n here later

    parse_caninfo-IsReady :
        (canid : ℕ) (obj : Option J) (kind : ℕ)
        → Keeps IsReady (parse_caninfo json memory answers canid obj kind)
    parse_caninfo-IsReady =
        parse_caninfo-Keeps IsReady json memory answers requested-IsReady add_caninfo-IsReady

    -- Whatever the file holds, if no object has a key twice: where loading it is defined it leaves
    -- sound dictionaries sound, and if all their entries have limited positions and tables that fit
    -- their type, so have all entries afterwards.
    pub can_define_init-IsReady :
        (strtol : CString → ℤ) (fname : Option CString) (s s' : Loader) (n : ℕ)
        → IsReady s
        → can_define_init json memory answers strtol fname s ≡ done (s', n)
        → IsReady s'
    can_define_init-IsReady strtol fname =
        can_define_init-Keeps IsReady json memory answers strtol parse_caninfo-IsReady fname
