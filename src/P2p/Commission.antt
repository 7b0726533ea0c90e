-- ===== src/P2p/Commission.antt =====
-- The commission of src/p2p/p2p-service.ts, and the settings that hold it
-- (src/settings/settings-store.ts, in memory).
pub mod Kept
use ticash_pay_demo.Prelude.Names.{Option, none, some, ◌||◌, if◌then◌else◌}
use ticash_pay_demo.Prelude.Int.{ℤ, pos, ltb_ℤ}
use ticash_pay_demo.Prelude.Text.{Text, codes, text_eq}
use ticash_pay_demo.Prelude.Runtime.{Numbers}
use ticash_pay_demo.Prelude.Dict.{Dict, lookup, insert}
use ticash_pay_demo.Prelude.Result.{Result, ok, err, p2p_error, validation}
use ticash_pay_demo.Money.Currency.{Currency}

abbrev pub Settings : Type 0
Settings = Dict Text Text

pub record P2pConfig : Type 0 where
  pub asset : Currency
  pub commission_bps : ℤ
  pub confirm_window_minutes : ℤ

-- What the service keeps for it: the settings store may be absent.
pub record CommissionState : Type 0 where
  pub cfg : P2pConfig
  pub settings : Option Settings

-- `COMMISSION_KEY`
abbrev pub commission_key : Text
commission_key = codes "p2p_commission_bps"

-- `Number.isInteger(n) && n >= 0 ? n : this.cfg.commissionBps`
abbrev pub usable_bps : ℤ → Option ℤ → ℤ
usable_bps default none = default
usable_bps default (some n) = if ltb_ℤ n (pos 0) then default else n

abbrev pub parsed : Numbers → Option Text → Option ℤ
parsed numbers none = none
parsed numbers (some t) = numbers.to_integer t

abbrev pub bps_in : Numbers → ℤ → Option Settings → ℤ
bps_in numbers default none = default
bps_in numbers default (some settings) =
    usable_bps default (parsed numbers (lookup commission_key settings))

-- `getCommissionBps`
unfoldable pub get_commission_bps : Numbers → CommissionState → ℤ
get_commission_bps numbers s = bps_in numbers s.cfg.commission_bps s.settings

abbrev pub write_bps : ℤ → Text → P2pConfig → Option Settings → CommissionState
write_bps bps printed cfg none = record {
  cfg = record cfg { commission_bps = bps };
  settings = none;
}
write_bps bps printed cfg (some settings) = record {
  cfg = cfg;
  settings = some (insert commission_key printed settings);
}

-- `setCommissionBps`; a number that is no integer is `none`, and `print` is `String`.
unfoldable pub set_commission_bps :
    (ℤ → Text) → Option ℤ → CommissionState → Result ℤ × CommissionState
set_commission_bps print none s = (err (p2p_error validation), s)
set_commission_bps print (some bps) s =
    if ltb_ℤ bps (pos 0) || ltb_ℤ (pos 2000) bps
    then (err (p2p_error validation), s)
    else (ok bps, write_bps bps (print bps) s.cfg s.settings)
