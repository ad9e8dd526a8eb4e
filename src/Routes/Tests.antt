-- ===== src/Routes/Tests.antt =====
-- Concrete requests to the administrative routes.
use vpp_blockchain.Base.{◌≡◌, refl, true, false, none, some, [], Text, codes}
use vpp_blockchain.Server.{award_points}
use vpp_blockchain.Routes.{Addresses, Config, survey_id_of, number, all_digits}
use vpp_blockchain.Routes.Surveys.{
  RegisterBody, Registration, hundredths, register_schema, register_route, award_route, or_default,
}
use vpp_blockchain.Routes.Sends.{Once}
use vpp_blockchain.Routes.Awards.{award_route-Once}
use vpp_blockchain.Routes.Keys.{Paired, register_route-Paired}

abbrev addresses : Addresses
addresses = record { is_address = λ a. true; get_address = λ a. a; zero_address = codes "0x0" }

abbrev config : Config
config = record {
  limits = record { min_balance = 10; max_fee_per_gas = 5000; max_priority_fee_per_gas = 100 };
  explorer_base_url = codes "https://explorer";
  minter_address = codes "0x1";
}

abbrev wallet : Text
wallet = codes "0xab"

seventeen : survey_id_of (codes "17") ≡ some 17
unfolding survey_id_of number all_digits
seventeen = refl

-- A leading zero is refused.
leading_zero : survey_id_of (codes "017") ≡ none
unfolding survey_id_of
leading_zero = refl

award_route-Once_example :
    Once
      (λ tx. tx ≡ award_points wallet 17)
      (award_route addresses config (codes "17") (some wallet))
award_route-Once_example = award_route-Once addresses config (codes "17") wallet 17 seventeen

-- One and a half points.
abbrev body : RegisterBody
body = record { survey_id = some 17; points = hundredths 150; max_claims = none; title = none }

abbrev request : Registration
request = record { survey_id = 17; points = 150; max_claims = 0; title = [] }

accepted : register_schema body ≡ some request
unfolding register_schema or_default
accepted = refl

register_route-Paired_example : Paired 17 false (register_route addresses config body)
register_route-Paired_example = register_route-Paired addresses config body request accepted
