-- ===== src/Access/Names.antt =====
-- The names of the permission catalogue: packages/contract/src/schemas/permissions.ts and `RoleSchema`.
use rch.Prelude.{ℕ, ◌≡◌, arith}
use rch.Workflow.Table.{Coded}

pub data Role : Type 0 where
  counter manager store prod buyer : Role

abbrev pub role_code : Role → ℕ
role_code counter = 0
role_code manager = 1
role_code store = 2
role_code prod = 3
role_code buyer = 4

pub data Feature : Type 0 where
  billing x_report z_report shift_reports credit settlements qr_orders approvals : Feature
  items_stock menu prices availability item_photos outlet_stock outlet_requests outlet_tickets :
      Feature
  issue_desk store_requisitions store_stock store_reports adjustments goods_receipt kitchen_orders
        make_distribute :
      Feature
  kitchen_requests kitchen_tickets kitchen_stock requisitions procurement_list purchase_orders
        rate_contracts vendors :
      Feature
  item_master new_products inventory stock_ledger : Feature

abbrev pub feature_code : Feature → ℕ
feature_code billing = 0
feature_code x_report = 1
feature_code z_report = 2
feature_code shift_reports = 3
feature_code credit = 4
feature_code settlements = 5
feature_code qr_orders = 6
feature_code approvals = 7
feature_code items_stock = 8
feature_code menu = 9
feature_code prices = 10
feature_code availability = 11
feature_code item_photos = 12
feature_code outlet_stock = 13
feature_code outlet_requests = 14
feature_code outlet_tickets = 15
feature_code issue_desk = 16
feature_code store_requisitions = 17
feature_code store_stock = 18
feature_code store_reports = 19
feature_code adjustments = 20
feature_code goods_receipt = 21
feature_code kitchen_orders = 22
feature_code make_distribute = 23
feature_code kitchen_requests = 24
feature_code kitchen_tickets = 25
feature_code kitchen_stock = 26
feature_code requisitions = 27
feature_code procurement_list = 28
feature_code purchase_orders = 29
feature_code rate_contracts = 30
feature_code vendors = 31
feature_code item_master = 32
feature_code new_products = 33
feature_code inventory = 34
feature_code stock_ledger = 35

pub data Level : Type 0 where
  view edit : Level

abbrev pub level_code : Level → ℕ
level_code view = 0
level_code edit = 1

pub data Action : Type 0 where
  void_bill void_settlement all_outlets : Action

abbrev pub action_code : Action → ℕ
action_code void_bill = 0
action_code void_settlement = 1
action_code all_outlets = 2

pub role_code_inj : (a b : Role) → role_code a ≡ role_code b → a ≡ b
role_code_inj a b h = ground arith

instance abbrev pub role_coded : Coded Role
role_coded = record { code = role_code; code_inj = role_code_inj }

pub level_code_inj : (a b : Level) → level_code a ≡ level_code b → a ≡ b
level_code_inj a b h = ground arith

instance abbrev pub level_coded : Coded Level
level_coded = record { code = level_code; code_inj = level_code_inj }

pub action_code_inj : (a b : Action) → action_code a ≡ action_code b → a ≡ b
action_code_inj a b h = ground arith

instance abbrev pub action_coded : Coded Action
action_coded = record { code = action_code; code_inj = action_code_inj }
