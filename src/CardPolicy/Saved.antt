-- ===== src/CardPolicy/Saved.antt =====
-- What is saved for an edit (apps/console/components/card-policies.tsx, `save`).
use vodoge_cloud.Prelude.{◌≡◌, refl, true, Option, none, some, List, [], ◌∙◌}
use vodoge_cloud.Text.{Text, units}
use vodoge_cloud.Catalog.Enrollment.{CardPolicyRow}
use vodoge_cloud.CardPolicy.{
  sms_send, sms_receive, carries_data, voice, CardPolicyEdit, cellular, vertical, capability, add,
  remove, CardPolicyPatch, card_policy_patch, PolicyBody, save_body, PolicyRequest, put_policy,
  delete_policy, request_of, find_policy,
}

-- A policy as it stands, and what a card without one starts from.
abbrev pub current : Option CardPolicyRow → PolicyBody
current (some row) = record {
  cellular_enabled = row.cellular_enabled;
  vertical = row.vertical;
  apn = row.apn;
  note = row.note;
  sms_send = row.sms_send;
  sms_receive = row.sms_receive;
  carries_data = row.carries_data;
  voice = row.voice;
}
current none = record {
  cellular_enabled = true;
  vertical = units "cn";
  apn = none;
  note = [];
  sms_send = none;
  sms_receive = none;
  carries_data = none;
  voice = none;
}

-- The request that changes the one field that an edit is about.
abbrev pub edited : CardPolicyEdit → Text → PolicyBody → PolicyRequest
edited (cellular enabled) iccid body = put_policy iccid (record body { cellular_enabled = enabled })
edited (vertical old new) iccid body = put_policy iccid (record body { vertical = new })
edited (capability sms_send value) iccid body = put_policy iccid (record body { sms_send = value })
edited (capability sms_receive value) iccid body =
    put_policy iccid (record body { sms_receive = value })
edited (capability carries_data value) iccid body =
    put_policy iccid (record body { carries_data = value })
edited (capability voice value) iccid body = put_policy iccid (record body { voice = value })
edited add iccid body =
    put_policy iccid (record body { cellular_enabled = true; vertical = units "cn" })
edited remove iccid body = delete_policy iccid

-- With the look-up done.
sent : Text → Option CardPolicyPatch → Option CardPolicyRow → PolicyRequest
sent iccid none found = delete_policy iccid
sent iccid (some patch) found = put_policy iccid (save_body patch found)

sent-request_of :
    (iccid : Text) (patch : Option CardPolicyPatch) (policies : List CardPolicyRow)
    → request_of patch iccid policies ≡ sent iccid patch (find_policy iccid policies)
unfolding sent
sent-request_of iccid none policies = refl
sent-request_of iccid (some patch) policies = refl

sent-edited :
    (iccid : Text) (change : CardPolicyEdit) (found : Option CardPolicyRow)
    → sent iccid (card_policy_patch change) found ≡ edited change iccid (current found)
unfolding sent card_policy_patch save_body
sent-edited iccid (cellular enabled) none = refl
sent-edited iccid (cellular enabled) (some row) = refl
sent-edited iccid (vertical old new) none = refl
sent-edited iccid (vertical old new) (some row) = refl
sent-edited iccid (capability sms_send value) none = refl
sent-edited iccid (capability sms_send value) (some row) = refl
sent-edited iccid (capability sms_receive value) none = refl
sent-edited iccid (capability sms_receive value) (some row) = refl
sent-edited iccid (capability carries_data value) none = refl
sent-edited iccid (capability carries_data value) (some row) = refl
sent-edited iccid (capability voice value) none = refl
sent-edited iccid (capability voice value) (some row) = refl
sent-edited iccid add none = refl
sent-edited iccid add (some row) = refl
sent-edited iccid remove none = refl
sent-edited iccid remove (some row) = refl

-- What goes out for a card is its policy, or the one that a card without a policy starts from, with the
-- field of the edit changed and no other, a cleared declaration among them, or the removal.
pub request_of-edited :
    (change : CardPolicyEdit) (iccid : Text) (policies : List CardPolicyRow)
    → request_of (card_policy_patch change) iccid policies
      ≡ edited change iccid (current (find_policy iccid policies))
request_of-edited change iccid policies =
    sent-request_of iccid (card_policy_patch change) policies
    ∙ sent-edited iccid change (find_policy iccid policies)
