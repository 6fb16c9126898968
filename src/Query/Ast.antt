-- ===== src/Query/Ast.antt =====
-- include/query/Ast.hpp: the statements of the SQL subset. Literals stay text until a statement
-- runs.

use cpp_db.Prelude.{List, Text, codes}
use cpp_db.Core.Schema.{DataType}

pub data CompareOp : Type 0 where
  eq ne lt le gt ge : CompareOp

pub record WhereClause : Type 0 where
  pub column : Text
  pub op : CompareOp
  pub value : Text

pub record ColumnDef : Type 0 where
  pub name : Text
  pub data_type : DataType

pub record CreateTableStatement : Type 0 where
  pub table : Text
  pub columns : List ColumnDef

pub record DropTableStatement : Type 0 where
  pub table : Text

pub record InsertStatement : Type 0 where
  pub table : Text
  pub columns : List Text
  pub values : List Text

pub record SelectStatement : Type 0 where
  pub table : Text
  pub columns : List Text
  pub conditions : List WhereClause

pub record UpdateStatement : Type 0 where
  pub table : Text
  pub assignments : List (Text × Text)
  pub conditions : List WhereClause

pub record DeleteStatement : Type 0 where
  pub table : Text
  pub conditions : List WhereClause

pub data Statement : Type 0 where
  create_table : CreateTableStatement → Statement
  drop_table : DropTableStatement → Statement
  insert_into : InsertStatement → Statement
  select_from : SelectStatement → Statement
  update_table : UpdateStatement → Statement
  delete_from : DeleteStatement → Statement

-- `toString(CompareOp)`
unfoldable pub op_to_string : CompareOp → Text
op_to_string eq = codes "="
op_to_string ne = codes "!="
op_to_string lt = codes "<"
op_to_string le = codes "<="
op_to_string gt = codes ">"
op_to_string ge = codes ">="
