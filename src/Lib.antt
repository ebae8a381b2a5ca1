-- ===== src/Lib.antt =====
-- A model of the frontend of The Better Decision (frontend/, TypeScript), with the theorems that its
-- session, logging and form code rests on.
--
-- The program. A Next.js client talks to a backend over fetch. frontend/lib/api.ts is the one place
-- where a request is sent: it holds the access token in module variables, refreshes it before it
-- expires and after a 401, shares one refresh and one /me probe among all callers, and dispatches
-- `auth:unauthenticated` when the session is dead. components/auth/AuthProvider.tsx restores a
-- session through it and listens to that event, as does lib/keep-warm.ts; components/AppShell.tsx
-- redirects to /login when no user is left. On the server, lib/auth-server.ts asks the backend
-- through lib/server-fetch.ts whether a cookie still has a session. Smaller parts are used by
-- pages: lib/auth.ts, lib/pagination.ts, lib/formErrors.ts, lib/persisted-state.ts, lib/format.ts,
-- lib/hooks/use-persisted-sort.ts, lib/hooks/use-persisted-filters.ts,
-- components/categories/dragMoveHelpers.ts and components/tour/useTour.ts. The largest page,
-- app/transactions/page.tsx, lists the rows of an organisation, lets some be selected and linked as
-- a transfer, and has a form for a new row and one for an edit, each of which makes several
-- requests; components/transactions/TagChipInput.tsx is the field for tags in both. Three other
-- ways lead to many rows at once: app/transactions/batch/page.tsx posts a grid of them,
-- app/import/page.tsx takes a bank file, shows what it found and sends what the user decided, and
-- app/categories/page.tsx with its dialogs moves and deletes subcategories in batches and by drag
-- and drop. proxy.ts stands before all pages: it gives each request an id and a nonce, stamps the
-- headers and logs the request.
--
-- Common        JavaScript strings as lists of UTF-16 code units (`Text`), JSON values, integers, and
--               lists measured by native numbers.
-- Api           frontend/lib/api.ts. Paths: timeoutForPath, isAuthEndpoint and the tests on a path.
--               Token: setAccessToken, decodeJwtExp, isAccessTokenNearExpiry and
--               scheduleProactiveRefresh over a record `Client` of accessToken, accessTokenExp, the
--               timer and the events dispatched. Refresh: refreshAccessTokenOnce and the retry loop of
--               refreshAccessToken. Errors: the end of apiFetch, from the last response to a value or
--               an exception. Flight: apiFetch, ensureFreshAccessToken and probeAuthMeAlive as
--               interleaved steps over a record `World` that adds refreshPromise, refreshAwaiters,
--               mePromise and a list each of running refreshes, probes and calls.
-- Auth          Roles: frontend/lib/auth.ts. Provider: restore, fetchMe, login and logout of
--               frontend/components/auth/AuthProvider.tsx and the redirect of
--               frontend/components/AppShell.tsx.
-- Server        Redaction and Fetch: sanitizeErrorMessage, serverFetchResult and serverFetch of
--               frontend/lib/server-fetch.ts. Session: getServerSessionResult of
--               frontend/lib/auth-server.ts.
-- Pages         Tour: useTourEngine of frontend/components/tour/useTour.ts. KeepWarm: startKeepWarm of
--               frontend/lib/keep-warm.ts. Pagination: fetchAll of frontend/lib/pagination.ts.
--               FormErrors: frontend/lib/formErrors.ts. Moves: the drag and drop of
--               frontend/components/categories/dragMoveHelpers.ts. Persisted: readPersisted,
--               writePersisted and clearPersisted of frontend/lib/persisted-state.ts. SortHook:
--               usePersistedSort of frontend/lib/hooks/use-persisted-sort.ts. FilterHook:
--               usePersistedFilters of frontend/lib/hooks/use-persisted-filters.ts.
-- Format        Amounts: equalsAmount and normalizeAmount of frontend/lib/format.ts.
-- Transactions  frontend/app/transactions/page.tsx. Rows: the rows and accounts of
--               frontend/lib/types.ts. Listing: loadTransactions, toggleSort and the comparator of
--               sortedTransactions. Selection: selectionHiddenIds, toggleOne, togglePage. Linking:
--               evaluateLinkSelection. Adding: handleAdd. Editing: startEdit, closeEdit and
--               handleSaveEdit. Acting: handleDelete, handleBulkDelete, handleToggleStatus,
--               openUnpairModal, handleAccountChange and the effect for the default account. Tags:
--               frontend/components/transactions/TagChipInput.tsx.
-- Batch         frontend/app/transactions/batch/page.tsx. Entry: the rows of the grid, rowIsBlank,
--               rowIsValid, updateRow, addRow, removeRow, handleRowKeyDown, resetForm, and handleSubmit
--               in two steps, up to its request and from the answer on, between which rows change
--               (Submits); Runs has the events.
-- Categories    frontend/app/categories/page.tsx. Rows: the categories and the selection. Deleting:
--               frontend/components/categories/BatchDeleteModal.tsx with the page's onSuccess; Failures:
--               its buildFailure. Moving: frontend/components/categories/BatchMoveModal.tsx. Listing:
--               reload, childrenMap and the search. Dragging: handleDragStart, handleDragEnd, the effect
--               that fetches a preview, and handleConfirmDragMove. Forms: handleAddSub, handleEditCat,
--               handleDelete, handleRestoreRecommended and the Escape key.
-- Imports       frontend/app/import/page.tsx. Rows: buildConfirmRow over the rows of
--               frontend/lib/types.ts. Page: handleUpload, handleConfirm, updateRow, updateTransferUi.
-- Proxy         frontend/proxy.ts. Query: sanitizeQuery. Headers: applySecurityHeaders with the pack
--               of frontend/lib/security-headers.ts. Requests: coerceRequestId, clientIp, the log
--               entry and proxy.
--
-- How code becomes definitions. A module variable, a React state or a closure's variable is a field
-- of a record, and an operation is a function on that record. Each `await` of apiFetch ends a step;
-- which step comes next, what the network answers and when a timer fires is a list of actions, so a
-- theorem about all lists covers all orders. A promise is named by its place in the list of its
-- kind. The list has more orders than a browser, since a call that goes on without an await is two
-- steps as well. The second at which a step happens is an argument. `Runtime` holds what the code
-- takes from the platform: the decoding of base64, JSON.parse, the text of a number, and whether a
-- window exists. A handler of a page takes the answers to its requests as arguments and returns the
-- requests that it made with the state that it leaves; startEdit, during whose request another row
-- can be opened, is two steps, as are the submit of the grid and the preview of a drop. The loop of
-- a batch delete is one step with the answer to each of its requests, and an effect of React
-- follows the change that sets it off. A JavaScript Set is the list of its members in their order.
--
-- Bounds. The loop of decodeJwtExp that pads to a multiple of four is three rounds, which always reach
-- one. A refresh has two retries and fetchAll a hundred pages, as in the code. The loop of
-- sanitizeQuery runs over a list that does not grow, so its length is enough fuel. All other
-- recursion is on the input.
--
-- What is left out. fetchWithTimeout is an argument: it answers, or fails with an error. Request
-- headers are modelled in Server/Fetch only, and in Api/Flight the bearer alone. Numbers in JSON
-- are integers, as are the statuses and the expiry that the code compares. A timer of any length
-- runs its length, where setTimeout takes 32 bits of milliseconds. The host of a backend
-- URL in a warning is a constant of the deployment and left out. Array.prototype.sort,
-- localeCompare, encodeURIComponent, toLowerCase and URLSearchParams are the platform's. Of the
-- transactions page the filters taken from the URL, the reset of the page number, the refresh after
-- an event and the transfer dialogs are left out, of the tag field the announced texts, the focus
-- and the timer, of lib/format.ts the formatting of dates and numbers. Of the import page the
-- filter of the table and the account taken from the URL are left out, of the categories the dialog
-- that adds a master, of the grid the suggestions. Rendering, routing, the other pages, the Python
-- backend and its database, the infrastructure and the tests are not modelled.
pub mod Common
pub mod Api
pub mod Auth
pub mod Proxy
pub mod Server
pub mod Pages
pub mod Format
pub mod Transactions
pub mod Batch
pub mod Categories
pub mod Imports
