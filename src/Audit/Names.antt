-- ===== src/Audit/Names.antt =====
-- Reading a category's name back.
use microsoft_agt_rust.Prelude.{◌≡◌, refl}
use microsoft_agt_rust.Prelude.Result.{ok}
use microsoft_agt_rust.Prelude.Text.{lower, same}
use microsoft_agt_rust.Audit.{
  DataCategory, personal_data, financial_record, audit_log, system_config, unknown, display,
  from_str,
}

-- A category that is printed is read back as itself.
pub from_str-display : (c : DataCategory) → from_str (display c) ≡ ok c
unfolding from_str display lower same
from_str-display personal_data = refl
from_str-display financial_record = refl
from_str-display audit_log = refl
from_str-display system_config = refl
from_str-display unknown = refl
