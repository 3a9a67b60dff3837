-- ===== src/Dynamo/Client.antt =====
-- The calls that internal/stack/dynamodb.go makes of the DynamoDB client of the AWS SDK, a parameter:
-- the inputs that the code fills, with the fields that it uses.
use container_provisioner_k.Base.{ℕ, String, Bool, Option, List}
use container_provisioner_k.Op.{Op}
use container_provisioner_k.Dynamo.Items.{Item}

pub record GetItemInput : Type 0 where
  pub table_name : String
  pub consistent_read : Bool
  pub key : Item

-- Where no condition is given, it is the empty text.
pub record PutItemInput : Type 0 where
  pub table_name : String
  pub item : Item
  pub condition : String

pub record DeleteItemInput : Type 0 where
  pub table_name : String
  pub key : Item
  pub condition : String
  pub attribute_values : Item

-- The placeholder #status, the only attribute name that is given, stands for "status".
pub record UpdateItemInput : Type 0 where
  pub table_name : String
  pub key : Item
  pub update : String
  pub condition : String
  pub attribute_values : Item

pub data TransactWriteItem : Type 0 where
  put_write : PutItemInput → TransactWriteItem
  update_write : UpdateItemInput → TransactWriteItem
  delete_write : DeleteItemInput → TransactWriteItem

pub record QueryInput : Type 0 where
  pub table_name : String
  pub index_name : Option String
  pub key_condition : String
  pub attribute_values : Item
  pub select_count : Bool
  pub exclusive_start_key : Item

pub record QueryOutput : Type 0 where
  pub items : List Item
  pub count : ℕ
  pub last_evaluated_key : Item

pub record DynamoClient (W : Type 0) : Type 0 where
  pub get_item : GetItemInput → Op W Item
  pub put_item : PutItemInput → Op W (Unit {0})
  pub delete_item : DeleteItemInput → Op W (Unit {0})
  pub update_item : UpdateItemInput → Op W (Unit {0})
  pub query : QueryInput → Op W QueryOutput
  pub transact_write_items : List TransactWriteItem → Op W (Unit {0})
