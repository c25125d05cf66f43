-- ===== src/CanJson/Load.antt =====
-- src/can_json.c: `add_propertyMapping` and `parse_caninfo`. The state is the dictionaries, the
-- strings that are kept, the send timers and the descriptors that the event loop watches.
pub mod File
pub mod Keeps
pub mod Ticking
pub mod Ready
pub mod Laws
pub mod Known
use agl_can_binder.Base.{
  ℕ, ◌+◌, ◌-◌, ◌%◌, ◌^◌, Bool, not, ◌||◌, Option, none, some, List, [], ◌∷◌, length, leb, ◌==◌, u8,
  u32, bit_and, codes, str_eq, if◌then◌else◌, ℤ, pos,
}
use agl_can_binder.CanidInfo.Types.{
  Strings, FrameData, CanFrame, Property, CanidInfo, can_kind_send,
}
use agl_can_binder.CanidSearch.Dict.{Dict, get_canid_dict, add_canid_dict, update_canid, requested}
use agl_can_binder.SocketcanRaw.{is_negative}
use agl_can_binder.CanSignalEvent.Send.{Timers, TimerAnswers, add_send_timer}
use agl_can_binder.CanJson.JsonC.{JsonC, Node, members, elements}
use agl_can_binder.CanJson.Run.{Run, done, exited, undefined, ◌>>=◌, defined}
use agl_can_binder.CanJson.Member.{add_property_member}

pub record Loader : Type 0 where
  pub dict : Dict
  pub strings : Strings
  pub timers : Timers
  pub watched : List ℤ

abbrev pub can_kind_readonly : ℕ
can_kind_readonly = 1

abbrev pub can_thinout_non : ℕ
can_thinout_non = 0

abbrev pub can_thinout_chg : ℕ
can_thinout_chg = 1

-- DEFAULT_CANINFO
abbrev pub default_caninfo : ℕ
default_caninfo = 16

-- The frame of a CAN-ID that is new.
abbrev pub empty_frame : ℕ → CanFrame
empty_frame canid = record {
  can_id = canid;
  can_dlc = 8;
  bytes = record { d0 = 0; d1 = 0; d2 = 0; d3 = 0; d4 = 0; d5 = 0; d6 = 0; d7 = 0 };
}

-- The CAN-ID in front of its entries.
abbrev pub new_caninfo : ℕ → ℕ → ℕ → ℕ → ℕ → CanidInfo
new_caninfo canid kind mode cycle dlc = record {
  canid = canid % 2 ^ 11;
  dlc = dlc;
  mode = mode;
  cycle = cycle;
  canraw_frame = empty_frame canid;
  timerfd = pos 0;
  kind = kind;
  property = [];
}

module _ {J : Type 0} (json : JsonC J) where
  -- MODE; anything but CAN_THINOUT_CHG is CAN_THINOUT_NON.
  unfoldable pub mode_of : Option J → Run ℕ
  mode_of none = done can_thinout_non
  mode_of (some v) = do
    s_mode ← defined (json.get_string (some v))
    done (if str_eq s_mode (codes "CAN_THINOUT_CHG") then can_thinout_chg else can_thinout_non)

  -- CYCLE, which counts under CAN_THINOUT_CHG only; there 0 is the longest cycle.
  unfoldable pub cycle_of : ℕ → Option J → ℕ
  cycle_of mode none = 0
  cycle_of mode (some v) =
      let cycle = u32 (json.get_int (some v)) in
      if mode == can_thinout_chg then (if cycle == 0 then 0xffffffff else cycle) else 0

  unfoldable pub dlc_of : Option J → ℕ
  dlc_of none = 0
  dlc_of (some v) = u8 (json.get_int (some v))

  -- The loop of `add_propertyMapping`.
  unfoldable pub property_members : ℕ → List (Option J) → Strings → Option (List Property × Strings)
  property_members kind [] strings = some ([], strings)
  property_members kind (prop_obj ∷ rest) strings =
      elim (add_property_member json kind prop_obj strings) [
        | none ↦ none
        | some (p, strings') ↦ elim (property_members kind rest strings') [
          | none ↦ none
          | some (l, strings'') ↦ some (p ∷ l, strings'')
        ]
      ]

  -- The entries, the strings and the number of errors: an empty list is one.
  unfoldable pub add_property_mapping :
      ℕ → List (Option J) → Strings → Run (List Property × Strings × ℕ)
  unfolding property_members
  add_property_mapping kind [] strings = done ([], strings, 1)
  add_property_mapping kind (e ∷ l) strings = do
    (property, strings') ← defined (property_members kind (e ∷ l) strings)
    done (property, strings', 0)

  module _ (memory : ℕ → Bool) (answers : ℕ → TimerAnswers) where
    -- The timer of a CAN-ID that is sent, if there was no error.
    unfoldable pub start_timer : ℕ → ℕ → ℕ → Loader → Run (Loader × ℕ)
    start_timer kind canid err s =
        if not (err == 0) || bit_and kind can_kind_send == 0
        then done (s, err)
        else elim (get_canid_dict canid s.dict) [
          | none ↦ undefined
          | some canid_info ↦
              let (info', timers', watched') =
                add_send_timer (answers canid) canid_info s.timers s.watched in
              let d' = update_canid canid (λ i. record i { timerfd = info'.timerfd }) s.dict in
              done (record s { dict = d'; timers = timers'; watched = watched' }, err)
        ]

    -- The array `DATA`, from `add_propertyMapping` on.
    unfoldable pub add_caninfo : ℕ → CanidInfo → List (Option J) → Loader → Run (Loader × ℕ)
    unfolding start_timer
    add_caninfo kind canid_info l s = do
      (property, strings', err) ← add_property_mapping kind l s.strings
      let (d', ret) = add_canid_dict memory (record canid_info { property = property }) s.dict
      start_timer kind canid_info.canid (if is_negative ret then err + 1 else err)
          (record s { dict = d'; strings = strings' })

    -- A long array needs memory, and the process ends if it is not granted.
    unfoldable pub grow_caninfo : ℕ → CanidInfo → List (Option J) → Loader → Run (Loader × ℕ)
    unfolding add_caninfo
    grow_caninfo kind canid_info l s =
        let grown = record s { dict = requested s.dict } in
        if leb (length l) default_caninfo
        then add_caninfo kind canid_info l s
        else if memory s.dict.requests
        then add_caninfo kind canid_info l grown
        else exited

    -- DATA must be an array.
    unfoldable pub data_of : ℕ → CanidInfo → Option J → Loader → Run (Loader × ℕ)
    unfolding grow_caninfo
    data_of kind canid_info none s = done (s, 1)
    data_of kind canid_info (some v) s = elim (elements json (some v)) [
      | none ↦ done (s, 1)
      | some l ↦ grow_caninfo kind canid_info l s
    ]

    -- A CAN-ID that is not known, with memory for it.
    unfoldable pub read_caninfo : ℕ → Option J → ℕ → Loader → Run (Loader × ℕ)
    unfolding mode_of cycle_of dlc_of data_of
    read_caninfo canid obj kind s = do
      mode ← mode_of (json.get_ex obj (codes "MODE"))
      let cycle = cycle_of mode (json.get_ex obj (codes "CYCLE"))
      let dlc = dlc_of (json.get_ex obj (codes "DLC"))
      data_of kind (new_caninfo canid kind mode cycle dlc) (json.get_ex obj (codes "DATA")) s

    unfoldable pub parse_caninfo : ℕ → Option J → ℕ → Loader → Run (Loader × ℕ)
    unfolding read_caninfo
    parse_caninfo canid obj kind s = elim (get_canid_dict canid s.dict) [
      | some other ↦ done (s, 1)
      | none ↦
          let s' = record s { dict = requested s.dict } in
          if memory s.dict.requests then read_caninfo canid obj kind s' else done (s', 1)
    ]
