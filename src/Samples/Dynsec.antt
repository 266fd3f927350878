-- ===== src/Samples/Dynsec.antt =====
-- internal/dynsec: documents, a plan and a plugin that runs it.
use mcm.Base.{Bool, true, false, List, [], ◌∷◌, ◌++◌, some, ◌≡◌, ◌↔◌, refl, sym, ap}
use mcm.Base.Members.{Memᴰ}
use mcm.Acl.Filter.{topic_matches_filter, match_levels}
use mcm.Text.{trim_space, has_prefix, Bytes, codes, is_blank, has_any, text_eq}
use mcm.Text.Split.{split}
use mcm.Acl.Validate.{contains_control_character, check_levels}
use mcm.Samples.Databases.{before, after, team_of, ada_ref}
use mcm.Dynsec.Model.{Document, find_client, find_group, find_role, is_found}
use mcm.Dynsec.Command.{Command}
use mcm.Dynsec.Updates.{Plan, commands_of}
use mcm.Dynsec.Plan.{build_plan, client_phase}
use mcm.Dynsec.Plan.Grants.{client_has, group_has}
use mcm.Dynsec.Effect.{client_apply, group_apply, role_apply, client_role_apply, group_role_apply}
use mcm.Dynsec.Plugin.{Plugin, exec_all, Shows}
use mcm.Dynsec.Plugin.Reaches.{build_plan-Shows}
use mcm.Dynsec.Validate.{validate}
use mcm.Dynsec.Validate.Documents.{IsDocument, validate_iff}
use mcm.Dynsec.Verify.{verify}
use mcm.Dynsec.Verify.Agreement.{DocumentAgrees, verify_iff}
use mcm.Dynsec.Guard.{check_control_channel, topic_reaches_control_channel, control_topic}
use mcm.Dynsec.Guard.Report.{IsGuarded, check_control_channel_iff}
use mcm.Dynsec.Plan.Twice.{join_change, joined_twice}

after_valid : validate after ≡ []
unfolding validate is_blank has_any text_eq contains_control_character check_levels split
after_valid = refl

-- A plugin that refuses nothing and knows of each fact only.
record Facts : Type 0 where
  clients : Bytes → Bool
  groups : Bytes → Bool
  roles : Bytes → Bool
  client_roles : Bytes → Bytes → Bool
  group_roles : Bytes → Bytes → Bool

abbrev next_facts : Command → Facts → Facts
next_facts c db = record {
  clients = λ u. client_apply u c (db.clients u);
  groups = λ g. group_apply g c (db.groups g);
  roles = λ r. role_apply r c (db.roles r);
  client_roles = λ u r. client_role_apply u r c (db.client_roles u r);
  group_roles = λ g r. group_role_apply g r c (db.group_roles g r);
}

done_facts :
    (c : Command) (db db' : Facts) → some (next_facts c db) ≡ some db' → next_facts c db ≡ db'
done_facts c db db' h = cc

abbrev plugin : Plugin Facts
plugin = record {
  exec = λ c db. some (next_facts c db);
  has_client = λ u db. db.clients u;
  has_group = λ g db. db.groups g;
  has_role = λ r db. db.roles r;
  client_has_role = λ u r db. db.client_roles u r;
  group_has_role = λ g r db. db.group_roles g r;
  exec-has_client = λ u c db db' h. ap (λ (x : Facts). x.clients u) (sym (done_facts c db db' h));
  exec-has_group = λ g c db db' h. ap (λ (x : Facts). x.groups g) (sym (done_facts c db db' h));
  exec-has_role = λ r c db db' h. ap (λ (x : Facts). x.roles r) (sym (done_facts c db db' h));
  exec-client_has_role =
      λ u r c db db' h. ap (λ (x : Facts). x.client_roles u r) (sym (done_facts c db db' h));
  exec-group_has_role =
      λ g r c db db' h. ap (λ (x : Facts). x.group_roles g r) (sym (done_facts c db db' h));
}

abbrev facts_of : Document → Facts
facts_of d = record {
  clients = λ u. is_found (find_client d u);
  groups = λ g. is_found (find_group d g);
  roles = λ r. is_found (find_role d r);
  client_roles = client_has d;
  group_roles = group_has d;
}

all_facts : List Command → Facts → Facts
all_facts [] db = db
all_facts (c ∷ cs) db = all_facts cs (next_facts c db)

exec_all-all_facts :
    (cs : List Command) (db : Facts) → exec_all plugin cs db ≡ some (all_facts cs db)
unfolding exec_all all_facts
exec_all-all_facts [] db = refl
exec_all-all_facts (c ∷ cs) db = exec_all-all_facts cs (next_facts c db)

build_plan-Shows_example :
    Shows plugin (all_facts (commands_of (build_plan before after)) (facts_of before)) after
build_plan-Shows_example =
    build_plan-Shows plugin before after (facts_of before)
      (all_facts (commands_of (build_plan before after)) (facts_of before))
      (λ u. refl, λ g. refl, λ r. refl, λ u r. refl, λ g r. refl) after_valid
      (exec_all-all_facts (commands_of (build_plan before after)) (facts_of before))

validate_iff_example : (validate after ≡ []) ↔ IsDocument after
validate_iff_example = validate_iff after

verify_iff_example : (verify after before ≡ []) ↔ DocumentAgrees after before
verify_iff_example = verify_iff after before

check_control_channel_iff_example :
    ((check_control_channel before (codes "admin")).ok ≡ true) ↔ IsGuarded before (codes "admin")
check_control_channel_iff_example = check_control_channel_iff before (codes "admin")

-- The operator alone reaches the channel.
before_guarded : (check_control_channel before (codes "admin")).ok ≡ true
unfolding check_control_channel text_eq topic_reaches_control_channel trim_space has_prefix
before_guarded = refl

joined_twice_example :
    (a : Plan) × (b : Plan) × (c : Plan) × (d : Plan) × (build_plan before after
      ≡ a
        ++ (join_change (codes "team") ada_ref
            ∷ (b
                ++ (client_phase before after ++ (c ++ (join_change (codes "team") ada_ref ∷ d))))))
unfolding text_eq
joined_twice_example =
    joined_twice before after (team_of (ada_ref ∷ [])) (team_of []) ada_ref (Memᴰ.head refl) refl
      (Memᴰ.head refl) refl

-- A filter that matches the topic of the channel, which the check does not report.
wildcard_unreported :
    (topic_matches_filter (codes "$CONTROL/+/v1") control_topic ≡ true)
    × (topic_reaches_control_channel (codes "$CONTROL/+/v1") ≡ false)
unfolding topic_matches_filter topic_reaches_control_channel text_eq trim_space has_prefix
    match_levels split
wildcard_unreported = (refl, refl)
